-- ===== src/Exer4/Shell/Defs.antt =====
-- exer4/shell/scheduler-shell.c: the round-robin scheduler with a shell among its processes. Its
-- globals are those of exer4/sched/scheduler.c.
use cslab_os.Base.{
  ℕ, ◌+◌, ◌==◌, Bool, none, some, List, [], ◌∷◌, ◌++◌, if◌then◌else◌, find?, length, Option,
}
use cslab_os.Base.Int.{ℤ, pos, negsuc}
use cslab_os.ProcCommon.{Status, wait_for_ready_children}
use cslab_os.Exer4.Plist.Ops.{has_id, marks}
use cslab_os.Exer4.Os.{
  sigstop, sigkill, print, forked, Os, Wait, running, aborted, ◌>>=◌, ◌>>◌, pure, exit, note,
  checked_kill, checked_malloc, ended, exit_with,
}
use cslab_os.Exer4.Prio.Defs.{
  enosys, found_pid, shell_name, Request, print_tasks, kill_task, exec_task, Event, request,
  alarm_rang, child_changed,
}
use cslab_os.Exer4.Sched.Defs.{Vars, Sched, head_pid, modify, new_task}
use cslab_os.Exer4.Sched.Defs

-- The file repeats this function and both handlers from exer4/sched/scheduler.c, word for word.
abbrev pub start_next_process : Os → Sched (Unit {0})
start_next_process = Defs.start_next_process

abbrev pub sigalrm_handler : Os → Sched (Unit {0})
sigalrm_handler = Defs.sigalrm_handler

abbrev pub sigchld_handler : Os → List Wait → Sched (Unit {0})
sigchld_handler = Defs.sigchld_handler

unfoldable pub sched_print_tasks : Sched (Unit {0})
sched_print_tasks = do current ← head_pid; λ w. note (print (marks current w.vars.procs)) w

-- `assert(procs != NULL)`
unfoldable pub assert_procs : Sched (Unit {0})
assert_procs w = elim w.vars.procs [ [] ↦ aborted | _ ∷ _ ↦ running tt w ]

unfoldable pub sched_kill_task_by_id : Os → ℤ → Sched ℤ
sched_kill_task_by_id os id = do
  assert_procs
  pid ← (λ w. running (found_pid (find? (has_id id) w.vars.procs)) w)
  if pid == 0 then pure (negsuc 0) else do checked_kill os pid sigkill; pure (pos 0)

-- The parent's side of `fork`.
unfoldable pub sched_create_task : Os → List ℕ → Sched (Unit {0})
sched_create_task os executable = λ w. elim (os.fork w.log) [
  | none ↦ note (forked none) w
  | some pid ↦
      (do
        note (forked (some pid))
        bytes ← checked_malloc os
        modify λ s. record s {
          procs = s.procs ++ new_task s.next_id pid executable bytes ∷ [];
          next_id = s.next_id + 1;
        })
        w
]

unfoldable pub process_request : Os → Request → Sched ℤ
process_request os print_tasks = do sched_print_tasks; pure (pos 0)
process_request os (kill_task id) = sched_kill_task_by_id os id
process_request os (exec_task name) = do sched_create_task os name; pure (pos 0)
process_request os _ = pure enosys

unfoldable pub sched_create_shell : Os → Bool → Sched ℕ
sched_create_shell os pipes =
    if pipes
    then (λ w. elim (os.fork w.log) [
      | none ↦ ended (exit_with (pos 1)) w
      | some pid ↦ (do note (forked (some pid)); pure pid) w
    ])
    else exit (pos 1)

unfoldable pub create_tasks : Os → List (List ℕ) → Sched (Unit {0})
create_tasks os [] = pure tt
create_tasks os (name ∷ names) = do sched_create_task os name; create_tasks os names

-- The shell becomes the first task, stopped.
unfoldable pub start_shell : Os → Bool → Sched (Unit {0})
start_shell os pipes = do
  pid ← sched_create_shell os pipes
  bytes ← checked_malloc os
  modify λ s. record s {
    procs = s.procs ++ new_task s.next_id pid shell_name bytes ∷ [];
    next_id = s.next_id + 1;
  }
  checked_kill os pid sigstop

-- `main` up to the request loop.
unfoldable pub boot : Os → Bool → List (List ℕ) → List (ℕ × Status) → Sched (Unit {0})
boot os pipes names reports = do
  start_shell os pipes
  create_tasks os names
  Defs.on_ready (wait_for_ready_children (length names + 1) reports)
  start_next_process os

-- The events of the scheduler with priorities, whose request.h is the same.
-- With the answer that `shell_request_loop` writes back for a request.
unfoldable pub handle : Os → Event → Sched (Option ℤ)
handle os (request rq) = do ret ← process_request os rq; pure (some ret)
handle os alarm_rang = do sigalrm_handler os; pure none
handle os (child_changed ws) = do sigchld_handler os ws; pure none
