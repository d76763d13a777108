-- ===== src/Exer4/Prio/Defs.antt =====
-- exer4/prio/scheduler-shell.c: the scheduler with two priorities, handler by handler.
use cslab_os.Base.{
  ℕ, ◌+◌, ◌==◌, Bool, true, false, Option, none, some, List, [], ◌∷◌, ◌++◌, if◌then◌else◌, find?,
  erase_first, rotate, length,
}
use cslab_os.Base.Int.{ℤ, pos, negsuc}
use cslab_os.ProcCommon.{
  Status, exited_with, killed_by, stopped_by, continued, Ready, wait_for_ready_children,
}
use cslab_os.Exer4.Plist.Memory.{Proc}
use cslab_os.Exer4.Plist.Ops.{has_pid, has_id, copy_name, marks}
use cslab_os.Exer4.Os.{
  sigcont, sigstop, sigkill, alarm, print, slain, forked, Os, Wait, child, failed, running, aborted,
  segv, Act, ◌>>=◌, ◌>>◌, pure, exit, note, checked_kill, checked_malloc, ended, exit_with,
  wait_forever, ended, wait_forever, exit_with,
}

abbrev pub tq_sec : ℕ
tq_sec = 2

-- The globals of the scheduler and of plist.c. A ring is the list of its processes from the head on.
pub record Vars : Type 0 where
  pub high_procs : List Proc
  pub low_procs : List Proc
  pub current_pid : ℕ
  pub next_id : ℕ

pub data Request : Type 0 where
  print_tasks : Request
  kill_task : ℤ → Request
  exec_task : List ℕ → Request
  high_task : ℤ → Request
  low_task : ℤ → Request
  other : Request

abbrev pub Sched : Type 0 → Type 0
Sched A = Act Vars A

abbrev pub gets : {A : Type 0} → (Vars → A) → Sched A
gets f w = running (f w.vars) w

abbrev pub modify : (Vars → Vars) → Sched (Unit {0})
modify f w = running tt (record w { vars = f w.vars })

abbrev pub abort : {A : Type 0} → Sched A
abort w = aborted

abbrev pub crash : {A : Type 0} → Sched A
crash w = segv

-- `high_procs ? high_procs->pid : low_procs->pid`, where there is one
unfoldable pub head_pid : List Proc → List Proc → Option ℕ
head_pid (v ∷ _) low = some v.pid
head_pid [] (v ∷ _) = some v.pid
head_pid [] [] = none

abbrev pub is_empty : List Proc → Bool
is_empty [] = true
is_empty (_ ∷ _) = false

abbrev pub found_pid : Option Proc → ℕ
found_pid none = 0
found_pid (some v) = v.pid

abbrev pub enosys : ℤ
enosys = negsuc 37

-- `assert (high_procs || low_procs)`
unfoldable pub assert_tasks : Sched (Unit {0})
assert_tasks w = elim (head_pid w.vars.high_procs w.vars.low_procs) [
  | none ↦ aborted
  | some _ ↦ running tt w
]

unfoldable pub start_next_process : Os → Sched (Unit {0})
start_next_process os = do
  next ← gets (λ s. head_pid s.high_procs s.low_procs)
  elim next [
    | none ↦ abort
    | some pid ↦ (do
      modify (λ s. record s { current_pid = pid })
      checked_kill os pid sigcont
      note (alarm tq_sec))
  ]

unfoldable pub sched_print_tasks : Sched (Unit {0})
sched_print_tasks = do
  s ← gets (λ s. s)
  note (print (marks s.current_pid s.high_procs))
  note (print (marks s.current_pid s.low_procs))

-- The two calls of `get_pid_from_id`.
unfoldable pub lookup_pid : ℤ → Vars → ℕ
lookup_pid id s =
    let pid = found_pid (find? (has_id id) s.high_procs) in
    if pid == 0 then found_pid (find? (has_id id) s.low_procs) else pid

unfoldable pub sched_kill_task_by_id : Os → ℤ → Sched ℤ
sched_kill_task_by_id os id = do
  assert_tasks
  pid ← gets (λ s. lookup_pid id s)
  if pid == 0 then pure (negsuc 0) else do checked_kill os pid sigkill; pure (pos 0)

abbrev pub new_task : ℤ → ℕ → List ℕ → List ℕ → Proc
new_task id pid name bytes = record { id = id; pid = pid; name = copy_name bytes name }

-- The parent's side of `fork`; the child only stops itself and calls `execve`.
unfoldable pub sched_create_task : Os → List ℕ → Sched (Unit {0})
sched_create_task os executable = λ w. elim (os.fork w.log) [
  | none ↦ note (forked none) w
  | some pid ↦
      (do
        note (forked (some pid))
        bytes ← checked_malloc os
        modify λ s. record s {
          low_procs = s.low_procs ++ new_task (pos s.next_id) pid executable bytes ∷ [];
          next_id = s.next_id + 1;
        })
        w
]

unfoldable pub sched_high_task_by_id : Os → ℤ → Sched ℤ
sched_high_task_by_id os id = do
  p ← gets (λ s. find? (has_id id) s.low_procs)
  elim p [
    | none ↦ pure (negsuc 0)
    | some v ↦ (do
      bytes ← checked_malloc os
      modify λ s. record s {
        high_procs = s.high_procs ++ new_task id v.pid v.name bytes ∷ [];
        low_procs = erase_first (has_pid v.pid) s.low_procs;
      }
      pure (pos 0))
  ]

unfoldable pub sched_low_task_by_id : Os → ℤ → Sched ℤ
sched_low_task_by_id os id = do
  p ← gets (λ s. find? (has_id id) s.high_procs)
  elim p [
    | none ↦ pure (negsuc 0)
    | some v ↦ (do
      bytes ← checked_malloc os
      modify λ s. record s {
        low_procs = s.low_procs ++ new_task id v.pid v.name bytes ∷ [];
        high_procs = erase_first (has_pid v.pid) s.high_procs;
      }
      pure (pos 0))
  ]

unfoldable pub process_request : Os → Request → Sched ℤ
process_request os print_tasks = do sched_print_tasks; pure (pos 0)
process_request os (kill_task id) = sched_kill_task_by_id os id
process_request os (exec_task name) = do sched_create_task os name; pure (pos 0)
process_request os (high_task id) = sched_high_task_by_id os id
process_request os (low_task id) = sched_low_task_by_id os id
process_request os other = pure enosys

unfoldable pub sigalrm_handler : Os → Sched (Unit {0})
sigalrm_handler os = do
  pid ← gets (λ s. s.current_pid)
  checked_kill os pid sigstop
  note (alarm tq_sec)

-- The three branches on a child's status in the loop of `sigchld_handler`.
unfoldable pub on_continued : Os → ℕ → Sched (Unit {0})
on_continued os p = do
  current ← gets (λ s. s.current_pid)
  if current == p then pure tt else checked_kill os p sigstop

unfoldable pub on_death : Os → ℕ → Sched (Unit {0})
on_death os p = do
  note (slain p)
  modify λ s. record s {
    high_procs = erase_first (has_pid p) s.high_procs;
    low_procs = erase_first (has_pid p) s.low_procs;
  }
  next ← gets (λ s. head_pid s.high_procs s.low_procs)
  elim next [
    | none ↦ exit (pos 0)
    | some _ ↦ (do
      current ← gets (λ s. s.current_pid)
      if current == p then start_next_process os else pure tt)
  ]

-- `procs = procs->next` of the list that is served.
unfoldable pub turn : Vars → Vars
turn s =
    if is_empty s.high_procs
    then record s { low_procs = rotate s.low_procs }
    else record s { high_procs = rotate s.high_procs }

-- With both lists empty the assignment would follow NULL.
unfoldable pub advance : Sched (Unit {0})
advance w = elim (head_pid w.vars.high_procs w.vars.low_procs) [
  | none ↦ segv
  | some _ ↦ running tt (record w { vars = turn w.vars })
]

unfoldable pub on_stopped : Os → ℕ → Sched (Unit {0})
on_stopped os p = do
  current ← gets (λ s. s.current_pid)
  if current == p then (do advance; start_next_process os) else pure tt

unfoldable pub on_status : Os → ℕ → Status → Sched (Unit {0})
on_status os p continued = on_continued os p
on_status os p (exited_with code) = on_death os p
on_status os p (killed_by sig) = on_death os p
on_status os p (stopped_by sig) = on_stopped os p

-- The answers of `waitpid` up to the 0 that ends the loop.
unfoldable pub sigchld_handler : Os → List Wait → Sched (Unit {0})
sigchld_handler os [] = pure tt
sigchld_handler os (failed ∷ ws) = exit (negsuc 0)
sigchld_handler os (child p st ∷ ws) = do on_status os p st; sigchld_handler os ws

-- `sched_create_shell`, the parent's side: the shell's pid, or `exit(1)`. `pipes` tells whether both
-- calls of `pipe` succeed.
unfoldable pub sched_create_shell : Os → Bool → Sched ℕ
sched_create_shell os pipes =
    if pipes
    then (λ w. elim (os.fork w.log) [
      | none ↦ ended (exit_with (pos 1)) w
      | some pid ↦ (do note (forked (some pid)); pure pid) w
    ])
    else exit (pos 1)

unfoldable pub create_tasks : Os → List (List ℕ) → Sched (Unit {0})
create_tasks os [] = pure tt
create_tasks os (name ∷ names) = do sched_create_task os name; create_tasks os names

-- `wait_for_ready_children(nproc)` on what `waitpid` reports.
unfoldable pub on_ready : Ready → Sched (Unit {0})
on_ready (Ready.ready rest) w = running tt w
on_ready Ready.blocked w = ended wait_forever w
on_ready Ready.failed w = ended (exit_with (pos 1)) w

unfoldable pub await_children : ℕ → List (ℕ × Status) → Sched (Unit {0})
await_children nproc reports = on_ready (wait_for_ready_children nproc reports)

-- "shell"
abbrev pub shell_name : List ℕ
shell_name = 115 ∷ 104 ∷ 101 ∷ 108 ∷ 108 ∷ []

-- The shell becomes the first task, stopped.
unfoldable pub start_shell : Os → Bool → Sched (Unit {0})
start_shell os pipes = do
  pid ← sched_create_shell os pipes
  bytes ← checked_malloc os
  modify λ s. record s {
    low_procs = s.low_procs ++ new_task (pos s.next_id) pid shell_name bytes ∷ [];
    next_id = s.next_id + 1;
  }
  checked_kill os pid sigstop

-- `main` up to the request loop: the shell, the tasks of the command line, and the first start.
unfoldable pub boot : Os → Bool → List (List ℕ) → List (ℕ × Status) → Sched (Unit {0})
boot os pipes names reports = do
  start_shell os pipes
  create_tasks os names
  await_children (length names + 1) reports
  start_next_process os

-- What reaches the scheduler afterwards: a request on the pipe (handled with both signals blocked),
-- SIGALRM, or SIGCHLD with what `waitpid` reports until it has nothing more.
pub data Event : Type 0 where
  request : Request → Event
  alarm_rang : Event
  child_changed : List Wait → Event

-- With the answer that `shell_request_loop` writes back for a request.
unfoldable pub handle : Os → Event → Sched (Option ℤ)
handle os (request rq) = do ret ← process_request os rq; pure (some ret)
handle os alarm_rang = do sigalrm_handler os; pure none
handle os (child_changed ws) = do sigchld_handler os ws; pure none

abbrev pub globals : Vars
globals = record { high_procs = []; low_procs = []; current_pid = 0; next_id = 0 }
