-- ===== src/Exer4/Shell/Simulates.antt =====
-- The scheduler with priorities does what the one without them does, as long as none are set.
use cslab_os.Base.{
  ℕ, ◌+◌, ◌≡◌, inl, inr, true, false, some, none, Bool, List, [], ◌∷◌, ◌++◌, Bool-cases,
  Option-cases, ◌==◌, find?,
}
use cslab_os.Base.Int.{ℤ, pos, negsuc}
use cslab_os.Exer4.Os.{Os, Call, sigkill, checked_malloc, forked}
use cslab_os.Exer4.Plist.Memory.{Proc}
use cslab_os.Exer4.Plist.Ops.{has_id}
use cslab_os.Exer4.Prio.Defs
use cslab_os.Exer4.Prio.Defs.{
  Request, print_tasks, kill_task, exec_task, high_task, low_task, other, Event, request,
  alarm_rang, child_changed, found_pid,
}
use cslab_os.Exer4.Sched.Defs.{Vars, head_pid}
use cslab_os.Exer4.Sched.Defs as Single
use cslab_os.Exer4.Shell.Defs as Shell
use cslab_os.Exer4.Shell.Handlers.{
  Same, both_run, both_end, at, at_low, Same-then, checked_kill-Same, sigalrm_handler-Same,
  sigchld_handler-Same,
}

-- The events that both schedulers know, but for the printing of the tasks.
abbrev pub is_common : Event → Bool
is_common (request print_tasks) = false
is_common (request (high_task id)) = false
is_common (request (low_task id)) = false
is_common _ = true

module _ (os : Os) where
  sched_kill_task_by_id-Same :
      (id : ℤ) (v : Proc) (vs : List Proc) (n : ℕ) (log : List Call)
      → Same
          (Shell.sched_kill_task_by_id os id (at v vs n log))
          (Defs.sched_kill_task_by_id os id (at_low v vs n log))
  unfolding Shell.sched_kill_task_by_id Shell.assert_procs Defs.sched_kill_task_by_id
      Defs.assert_tasks Defs.lookup_pid Defs.head_pid
  sched_kill_task_by_id-Same id v vs n log =
      let p = found_pid (find? (has_id id) (v ∷ vs)) in
      elim (Bool-cases (p == 0)) [
        | inl miss ↦ rw miss (both_run (negsuc 0) v vs n log)
        | inr hit ↦ rw hit (
            Same-then _ _ (checked_kill-Same os p sigkill v vs n log)
              λ _ u us m log'. both_run (pos 0) u us m log')
      ]

  sched_create_task-Same :
      (name : List ℕ) (v : Proc) (vs : List Proc) (n : ℕ) (log : List Call)
      → Same
          (Shell.sched_create_task os name (at v vs n log))
          (Defs.sched_create_task os name (at_low v vs n log))
  unfolding Shell.sched_create_task Defs.sched_create_task checked_malloc
  sched_create_task-Same name v vs n log = elim (Option-cases (os.fork log)) [
    | inl e ↦ rw (e, Shell.sched_create_task, Defs.sched_create_task) (both_run tt v vs n _)
    | inr (p, e) ↦ elim (Option-cases (os.malloc (forked (some p) ∷ log))) [
      | inl full ↦
          rw (e, Shell.sched_create_task, Defs.sched_create_task, full, checked_malloc)
            (both_end _ _ _ _)
      | inr (bytes, got) ↦
          rw (e, Shell.sched_create_task, Defs.sched_create_task, got, checked_malloc)
            (both_run tt v (vs ++ Single.new_task n p name bytes ∷ []) (n + 1) _)
    ]
  ]

  process_request-Same :
      (rq : Request) (v : Proc) (vs : List Proc) (n : ℕ) (log : List Call)
      → is_common (request rq) ≡ true
      → Same
          (Shell.process_request os rq (at v vs n log))
          (Defs.process_request os rq (at_low v vs n log))
  unfolding Shell.process_request Defs.process_request
  process_request-Same print_tasks v vs n log e = cc
  process_request-Same (kill_task id) v vs n log e = sched_kill_task_by_id-Same id v vs n log
  process_request-Same (exec_task name) v vs n log e =
      Same-then _ _ (sched_create_task-Same name v vs n log)
        λ _ u us m log'. both_run (pos 0) u us m log'
  process_request-Same (high_task id) v vs n log e = cc
  process_request-Same (low_task id) v vs n log e = cc
  process_request-Same other v vs n log e = both_run Defs.enosys v vs n log

  -- On a list of at least one process, any event but a request to print or to set a priority: the
  -- scheduler of exer4/shell, and the one of exer4/prio with the same list as its low one, no task on
  -- the high one and the head current, make the same calls of `kill`, `fork` and `alarm` in the
  -- same order. Both return, with the same answer to write back for a request (and none for a signal),
  -- again with a common list that is not empty and its head current, or both end the program in the
  -- same way. Neither fails an assertion or follows NULL.
  pub handle-Same :
      (ev : Event) (v : Proc) (vs : List Proc) (n : ℕ) (log : List Call)
      → is_common ev ≡ true
      → Same (Shell.handle os ev (at v vs n log)) (Defs.handle os ev (at_low v vs n log))
  unfolding Shell.handle Defs.handle
  handle-Same (request rq) v vs n log e =
      Same-then _ _ (process_request-Same rq v vs n log e)
        λ ret u us m log'. both_run (some ret) u us m log'
  handle-Same alarm_rang v vs n log e =
      Same-then _ _ (sigalrm_handler-Same os v vs n log) λ _ u us m log'. both_run none u us m log'
  handle-Same (child_changed ws) v vs n log e =
      Same-then _ _ (sigchld_handler-Same os ws v vs n log)
        λ _ u us m log'. both_run none u us m log'
