-- ===== src/Exer4/Sched/Defs.antt =====
-- exer4/sched/scheduler.c: the scheduler for the tasks of its command line, handler by handler. The
-- current process is the head of the one list.
use cslab_os.Base.{
  ℕ, ◌+◌, ◌==◌, none, some, List, [], ◌∷◌, ◌++◌, if◌then◌else◌, erase_first, rotate, length,
}
use cslab_os.Base.Int.{pos, negsuc}
use cslab_os.ProcCommon.{
  Status, exited_with, killed_by, stopped_by, continued, Ready, wait_for_ready_children,
}
use cslab_os.Exer4.Plist.Memory.{Proc}
use cslab_os.Exer4.Plist.Ops.{has_pid, copy_name}
use cslab_os.Exer4.Os.{
  sigcont, sigstop, alarm, slain, forked, Os, Wait, child, failed, running, segv, Act, ◌>>=◌, ◌>>◌,
  pure, exit, note, checked_kill, checked_malloc, ended, exit_with, wait_forever,
}

abbrev pub tq_sec : ℕ
tq_sec = 2

-- `procs`, and `nextID` of plist.c.
pub record Vars : Type 0 where
  pub procs : List Proc
  pub next_id : ℕ

abbrev pub Sched : Type 0 → Type 0
Sched A = Act Vars A

-- `procs->pid`
unfoldable pub head_pid : Sched ℕ
head_pid w = elim w.vars.procs [ [] ↦ segv | v ∷ _ ↦ running v.pid w ]

abbrev pub modify : (Vars → Vars) → Sched (Unit {0})
modify f w = running tt (record w { vars = f w.vars })

unfoldable pub start_next_process : Os → Sched (Unit {0})
start_next_process os = do pid ← head_pid; checked_kill os pid sigcont; note (alarm tq_sec)

unfoldable pub sigalrm_handler : Os → Sched (Unit {0})
sigalrm_handler os = do pid ← head_pid; checked_kill os pid sigstop; note (alarm tq_sec)

unfoldable pub on_continued : Os → ℕ → Sched (Unit {0})
on_continued os p = do
  current ← head_pid
  if current == p then pure tt else checked_kill os p sigstop

-- `procs == NULL`: exit; otherwise the next process is started if the current one died.
unfoldable pub after_death : Os → ℕ → ℕ → Sched (Unit {0})
after_death os current p w = elim w.vars.procs [
  | [] ↦ ended (exit_with (pos 0)) w
  | _ ∷ _ ↦ (if current == p then start_next_process os else pure tt) w
]

unfoldable pub on_death : Os → ℕ → Sched (Unit {0})
on_death os p = do
  current ← head_pid
  note (slain p)
  modify λ s. record s { procs = erase_first (has_pid p) s.procs }
  after_death os current p

-- `procs = procs->next` moves the head to the end of the list.
unfoldable pub on_stopped : Os → ℕ → Sched (Unit {0})
on_stopped os p = do
  current ← head_pid
  if p == current
      then (do modify λ s. record s { procs = rotate s.procs }; start_next_process os)
      else pure tt

unfoldable pub on_status : Os → ℕ → Status → Sched (Unit {0})
on_status os p continued = on_continued os p
on_status os p (exited_with code) = on_death os p
on_status os p (killed_by sig) = on_death os p
on_status os p (stopped_by sig) = on_stopped os p

-- The answers of `waitpid` up to the 0 that ends the loop.
unfoldable pub sigchld_handler : Os → List Wait → Sched (Unit {0})
sigchld_handler os [] = pure tt
sigchld_handler os (failed ∷ ws) = exit (negsuc 0)
sigchld_handler os (child p st ∷ ws) = do on_status os p st; sigchld_handler os ws

abbrev pub new_task : ℕ → ℕ → List ℕ → List ℕ → Proc
new_task id pid name bytes = record { id = pos id; pid = pid; name = copy_name bytes name }

-- One round of the loop of `main`, the parent's side: a task for one program of the command line.
unfoldable pub create_task : Os → List ℕ → Sched (Unit {0})
create_task os name w = elim (os.fork w.log) [
  | none ↦ ended (exit_with (negsuc 0)) w
  | some pid ↦
      (do
        note (forked (some pid))
        bytes ← checked_malloc os
        modify λ s. record s {
          procs = s.procs ++ new_task s.next_id pid name bytes ∷ [];
          next_id = s.next_id + 1;
        })
        w
]

unfoldable pub create_tasks : Os → List (List ℕ) → Sched (Unit {0})
create_tasks os [] = pure tt
create_tasks os (name ∷ names) = do create_task os name; create_tasks os names

unfoldable pub on_ready : Ready → Sched (Unit {0})
on_ready (Ready.ready rest) w = running tt w
on_ready Ready.blocked w = ended wait_forever w
on_ready Ready.failed w = ended (exit_with (pos 1)) w

-- `main` up to its endless `pause`.
unfoldable pub boot : Os → List (List ℕ) → List (ℕ × Status) → Sched (Unit {0})
boot os names reports = if length names == 0 then exit (negsuc 0) else do
  create_tasks os names
  on_ready (wait_for_ready_children (length names) reports)
  start_next_process os

abbrev pub globals : Vars
globals = record { procs = []; next_id = 0 }
