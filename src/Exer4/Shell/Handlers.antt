-- ===== src/Exer4/Shell/Handlers.antt =====
-- The signal handlers of the two schedulers with a shell do the same, while no task has high priority.
use cslab_os.Base.{
  ℕ, ◌≡◌, inl, inr, true, none, some, List, [], ◌∷◌, ◌++◌, arith, Bool-cases, ◌==◌, if◌then◌else◌,
  erase_first, ◌∙◌,
}
use cslab_os.Base.Int.{pos}
use cslab_os.ProcCommon.{Status, exited_with, killed_by, stopped_by, continued}
use cslab_os.Exer4.Os.{
  Os, World, Call, End, Outcome, running, ended, Wait, child, failed, then_run, Act, kill, sigcont,
  sigstop, Signal, alarm, slain, checked_kill, exit, pure, ◌>>=◌,
}
use cslab_os.Exer4.Plist.Memory.{Proc}
use cslab_os.Exer4.Plist.Ops.{has_pid}
use cslab_os.Exer4.Prio.Defs
use cslab_os.Exer4.Prio.Defs.{
  Request, print_tasks, kill_task, exec_task, high_task, low_task, other, Event, request,
  alarm_rang, child_changed, found_pid,
}
use cslab_os.Exer4.Sched.Defs.{Vars, head_pid}
use cslab_os.Exer4.Sched.Defs as Single

abbrev pub first_pid : List Proc → ℕ
first_pid [] = 0
first_pid (v ∷ vs) = v.pid

-- The state with priorities in which no task has a high one.
abbrev pub all_low : Vars → Defs.Vars
all_low s = record {
  high_procs = [];
  low_procs = s.procs;
  current_pid = first_pid s.procs;
  next_id = s.next_id;
}

-- The two runs fail no assertion and follow no NULL. Either both return, with the same result and the
-- same calls made, and the second state is the first one with all tasks low and some task there; or
-- both end the program in the same way after the same calls.
pub data Same {A : Type 0} : Outcome Vars A → Outcome Defs.Vars A → Type 0 where
  both_run :
      (a : A) (v : Proc) (vs : List Proc) (n : ℕ) (log : List Call)
      → Same (running a (record { vars = record { procs = v ∷ vs; next_id = n }; log = log })) (
          running a (record { vars = all_low (record { procs = v ∷ vs; next_id = n }); log = log }))
  both_end :
      (e : End) (s : Vars) (s' : Defs.Vars) (log : List Call)
      → Same (ended e (record { vars = s; log = log })) (ended e (record { vars = s'; log = log }))

eq_swap : (a b : ℕ) → (b == a) ≡ (a == b)
eq_swap a b = ground arith

abbrev pub at : Proc → List Proc → ℕ → List Call → World Vars
at v vs n log = record { vars = record { procs = v ∷ vs; next_id = n }; log = log }

abbrev pub at_low : Proc → List Proc → ℕ → List Call → World Defs.Vars
at_low v vs n log = record { vars = all_low (record { procs = v ∷ vs; next_id = n }); log = log }

pub Same-then :
    {A B : Type 0} {r : Outcome Vars A} {r' : Outcome Defs.Vars A} (k : A → Act Vars B)
    (k' : A → Act Defs.Vars B)
    → Same r r'
    → ((a : A) (v : Proc) (vs : List Proc) (n : ℕ) (log : List Call)
        → Same (k a (at v vs n log)) (k' a (at_low v vs n log)))
    → Same (then_run k r) (then_run k' r')
Same-then k k' (both_run a v vs n log) rest = rest a v vs n log
Same-then k k' (both_end e s s' log) rest = both_end e s s' log

module _ (os : Os) where
  pub checked_kill-Same :
      (p : ℕ) (sig : Signal) (v : Proc) (vs : List Proc) (n : ℕ) (log : List Call)
      → Same (checked_kill os p sig (at v vs n log)) (checked_kill os p sig (at_low v vs n log))
  unfolding checked_kill
  checked_kill-Same p sig v vs n log = elim (Bool-cases (os.kill_ok log p sig)) [
    | inl done ↦ rw done (both_run tt v vs n (kill p sig ∷ log))
    | inr e ↦ rw e (both_end _ _ _ log)
  ]

  -- Whoever was current before, the head of the list is now.
  start_next_process-Same :
      (c : ℕ) (v : Proc) (vs : List Proc) (n : ℕ) (log : List Call)
      → Same (Single.start_next_process os (at v vs n log)) (
          Defs.start_next_process os (record {
            vars = record { high_procs = []; low_procs = v ∷ vs; current_pid = c; next_id = n };
            log = log;
          }))
  unfolding Single.start_next_process head_pid Defs.start_next_process Defs.head_pid
  start_next_process-Same c v vs n log =
      Same-then _ _ (checked_kill-Same v.pid sigcont v vs n log)
        λ _ u us m log'. both_run tt u us m (alarm Single.tq_sec ∷ log')

  pub sigalrm_handler-Same :
      (v : Proc) (vs : List Proc) (n : ℕ) (log : List Call)
      → Same
          (Single.sigalrm_handler os (at v vs n log))
          (Defs.sigalrm_handler os (at_low v vs n log))
  unfolding Single.sigalrm_handler head_pid Defs.sigalrm_handler
  sigalrm_handler-Same v vs n log =
      Same-then _ _ (checked_kill-Same v.pid sigstop v vs n log)
        λ _ u us m log'. both_run tt u us m (alarm Single.tq_sec ∷ log')

  on_continued-Same :
      (p : ℕ) (v : Proc) (vs : List Proc) (n : ℕ) (log : List Call)
      → Same (Single.on_continued os p (at v vs n log)) (Defs.on_continued os p (at_low v vs n log))
  unfolding Single.on_continued head_pid Defs.on_continued
  on_continued-Same p v vs n log = elim (Bool-cases (v.pid == p)) [
    | inl mine ↦ rw mine (both_run tt v vs n log)
    | inr stray ↦ rw stray (checked_kill-Same p sigstop v vs n log)
  ]

  rotated-Same :
      (c : ℕ) (v : Proc) (vs : List Proc) (n : ℕ) (log : List Call)
      → Same
          (Single.start_next_process os
            (record { vars = record { procs = vs ++ v ∷ []; next_id = n }; log = log }))
          (Defs.start_next_process os (record {
            vars = record {
              high_procs = [];
              low_procs = vs ++ v ∷ [];
              current_pid = c;
              next_id = n;
            };
            log = log;
          }))
  rotated-Same c v [] n log = start_next_process-Same c v [] n log
  rotated-Same c v (u ∷ us) n log = start_next_process-Same c u (us ++ v ∷ []) n log

  on_stopped-Same :
      (p : ℕ) (v : Proc) (vs : List Proc) (n : ℕ) (log : List Call)
      → Same (Single.on_stopped os p (at v vs n log)) (Defs.on_stopped os p (at_low v vs n log))
  unfolding Single.on_stopped head_pid Defs.on_stopped Defs.advance Defs.turn Defs.head_pid
  on_stopped-Same p v vs n log = elim (Bool-cases (v.pid == p)) [
    | inl mine ↦ rw (eq_swap v.pid p ∙ mine, mine) (rotated-Same v.pid v vs n log)
    | inr stray ↦ rw (eq_swap v.pid p ∙ stray, stray) (both_run tt v vs n log)
  ]

  -- The current process died, and the list without it is left.
  after_death-Same :
      (p c : ℕ) (vs : List Proc) (n : ℕ) (log : List Call)
      → (c == p) ≡ true
      → Same
          (Single.after_death os c p
            (record { vars = record { procs = vs; next_id = n }; log = log }))
          (then_run
            (λ next. elim next [
              | none ↦ exit (pos 0)
              | some _ ↦ Defs.gets (λ s. s.current_pid) >>= λ current.
                  if current == p then Defs.start_next_process os else pure tt
            ])
            (running (Defs.head_pid [] vs) (record {
              vars = record { high_procs = []; low_procs = vs; current_pid = c; next_id = n };
              log = log;
            })))
  unfolding Single.after_death Defs.head_pid
  after_death-Same p c [] n log mine = both_end _ _ _ log
  after_death-Same p c (u ∷ us) n log mine = rw mine (start_next_process-Same c u us n log)

  on_death-Same :
      (p : ℕ) (v : Proc) (vs : List Proc) (n : ℕ) (log : List Call)
      → Same (Single.on_death os p (at v vs n log)) (Defs.on_death os p (at_low v vs n log))
  unfolding Single.on_death head_pid Defs.on_death Single.after_death Defs.head_pid
  on_death-Same p v vs n log = elim (Bool-cases (v.pid == p)) [
    | inl mine ↦ rw mine (after_death-Same p v.pid vs n (slain p ∷ log) mine)
    | inr stray ↦
        rw (stray, Single.after_death, Defs.head_pid, stray)
          (both_run tt v (erase_first (has_pid p) vs) n (slain p ∷ log))
  ]

  on_status-Same :
      (p : ℕ) (st : Status) (v : Proc) (vs : List Proc) (n : ℕ) (log : List Call)
      → Same (Single.on_status os p st (at v vs n log)) (Defs.on_status os p st (at_low v vs n log))
  unfolding Single.on_status Defs.on_status
  on_status-Same p continued v vs n log = on_continued-Same p v vs n log
  on_status-Same p (exited_with code) v vs n log = on_death-Same p v vs n log
  on_status-Same p (killed_by sig) v vs n log = on_death-Same p v vs n log
  on_status-Same p (stopped_by sig) v vs n log = on_stopped-Same p v vs n log

  pub sigchld_handler-Same :
      (ws : List Wait) (v : Proc) (vs : List Proc) (n : ℕ) (log : List Call)
      → Same
          (Single.sigchld_handler os ws (at v vs n log))
          (Defs.sigchld_handler os ws (at_low v vs n log))
  unfolding Single.sigchld_handler Defs.sigchld_handler
  sigchld_handler-Same [] v vs n log = both_run tt v vs n log
  sigchld_handler-Same (failed ∷ ws) v vs n log = both_end _ _ _ log
  sigchld_handler-Same (child p st ∷ ws) v vs n log =
      Same-then _ _ (on_status-Same p st v vs n log)
        λ _ u us m log'. sigchld_handler-Same ws u us m log'
