-- ===== src/Exer4/Prio/Tests.antt =====
-- The two-priority scheduler at concrete runs.
use cslab_os.Base.{
  ℕ, ◌+◌, ◌≡◌, ◌≢◌, refl, sym, ◌∙◌, true, some, List, [], ◌∷◌, ◌++◌, arith, length, replicate,
}
use cslab_os.Base.Int.{pos}
use cslab_os.ProcCommon.{Status, stopped_by, exited_with, wait_for_ready_children}
use cslab_os.Exer4.Plist.Memory.{Proc}
use cslab_os.Exer4.Plist.Ops.{copy_name, strncpy}
use cslab_os.Exer4.Os.{
  Os, World, kill, alarm, forked, sigcont, sigstop, running, child, checked_malloc, checked_kill,
}
use cslab_os.Exer4.Safe.{Never, IsSafe, goes_on, IsSafe-running}
use cslab_os.Exer4.Prio.Defs.{
  Vars, process_request, exec_task, sched_kill_task_by_id, on_stopped, sigchld_handler, boot,
  start_shell, start_next_process, head_pid, child_changed, handle, shell_name, sched_create_shell,
  create_tasks, sched_create_task, await_children, on_ready,
}
use cslab_os.Exer4.Prio.Invariant.{IsGood, IsSound, Serves}
use cslab_os.Exer4.Prio.Dispatch.{
  Stable, IsKillOf, process_request-Stable, sched_kill_task_by_id-IsKillOf,
}
use cslab_os.Exer4.Prio.Children.{ChildrenEnd, on_stopped-Good, sigchld_handler-Good}
use cslab_os.Exer4.Prio.Started.{IsTurned}
use cslab_os.Exer4.Prio.Main.{
  EventEnd, BootEnd, boot-Good, booted, FreshBoot, FreshChildren, start, Reach-IsSafe,
}

-- A system where every call succeeds and pids grow with the log.
abbrev pub os : Os
os = record {
  kill_ok = λ log pid sig. true;
  fork = λ log. some (100 + length log);
  malloc = λ log. some [];
}

abbrev pub prog : List ℕ
prog = 112 ∷ []

abbrev shell_task : Proc
shell_task = record { id = pos 0; pid = 100; name = shell_name ++ replicate 54 0 }

abbrev prog_task : Proc
prog_task = record { id = pos 1; pid = 102; name = prog ++ replicate 58 0 }

abbrev with_shell : World Vars
with_shell = record {
  vars = record { high_procs = []; low_procs = shell_task ∷ []; current_pid = 0; next_id = 1 };
  log = kill 100 sigstop ∷ forked (some 100) ∷ [];
}

-- The start of a scheduler with one program beside the shell.
abbrev pub after_boot : World Vars
after_boot = record {
  vars = record {
    high_procs = [];
    low_procs = shell_task ∷ prog_task ∷ [];
    current_pid = 100;
    next_id = 2;
  };
  log = alarm 2 ∷ kill 100 sigcont ∷ forked (some 102) ∷ with_shell.log;
}

abbrev pub stops : List (ℕ × Status)
stops = (100, stopped_by 19) ∷ (102, stopped_by 19) ∷ []

pub boot_run : boot os true (prog ∷ []) stops start ≡ running tt after_boot
unfolding boot start_shell sched_create_shell checked_malloc checked_kill create_tasks
    sched_create_task await_children on_ready wait_for_ready_children start_next_process head_pid
    copy_name strncpy
boot_run = refl

shell_run : start_shell os true start ≡ running tt with_shell
unfolding start_shell sched_create_shell checked_malloc checked_kill copy_name strncpy
shell_run = refl

fresh_tasks : FreshChildren os (prog ∷ []) with_shell
fresh_tasks = ((λ p e. ground arith), λ w' e. tt)

pub fresh : FreshBoot os true (prog ∷ [])
fresh = record {
  shell = λ p e. ground arith;
  tasks = λ w' e.
      IsSafe-running {os = os} {X = Never} {P = λ _ v. FreshChildren os (prog ∷ []) v}
        (goes_on fresh_tasks) (sym shell_run ∙ e);
}

Reach-IsSafe_example :
    IsGood after_boot
    × IsSafe os
        (EventEnd os (child_changed (child 100 (stopped_by 19) ∷ [])))
        (λ _ w'. IsGood w')
        (handle os (child_changed (child 100 (stopped_by 19) ∷ [])) after_boot)
Reach-IsSafe_example =
    Reach-IsSafe os (child_changed (child 100 (stopped_by 19) ∷ []))
      (booted true (prog ∷ []) stops fresh boot_run) (λ p e. ground arith)

-- The program has been set to high priority; the shell still runs.
abbrev two_lists : World Vars
two_lists = record {
  vars = record {
    high_procs = prog_task ∷ [];
    low_procs = shell_task ∷ [];
    current_pid = 100;
    next_id = 2;
  };
  log = after_boot.log;
}

two_lists-IsSound : IsSound two_lists.vars
two_lists-IsSound = record {
  pids = λ p. ground arith;
  ids = λ z. ground arith;
  no_zero = refl;
  unused = λ n le. ground arith;
}

two_lists-Serves : Serves two_lists.vars
two_lists-Serves = omega arith

process_request-Stable_example :
    IsSafe os Never
      (λ r w'. Stable os two_lists two_lists-IsSound two_lists-Serves w'.vars × (r ≡ pos 0))
      (process_request os (exec_task prog) two_lists)
process_request-Stable_example =
    process_request-Stable os two_lists two_lists-IsSound two_lists-Serves (exec_task prog)
      (λ p e. ground arith)

sched_kill_task_by_id-IsKillOf_example :
    IsSafe os Never
      (λ r w'. (w'.vars ≡ two_lists.vars) × IsKillOf (pos 1) two_lists.vars two_lists.log r w'.log)
      (sched_kill_task_by_id os (pos 1) two_lists)
sched_kill_task_by_id-IsKillOf_example =
    sched_kill_task_by_id-IsKillOf os two_lists two_lists-IsSound two_lists-Serves (pos 1)

on_stopped-Good_example :
    IsSafe os Never
      (λ _ w'.
        IsGood w'
        × (two_lists.vars.current_pid ≡ 100 → IsTurned two_lists w')
        × (two_lists.vars.current_pid ≢ 100 → w' ≡ two_lists))
      (on_stopped os 100 two_lists)
on_stopped-Good_example = on_stopped-Good os 100 two_lists (two_lists-IsSound, two_lists-Serves)

sigchld_handler-Good_example :
    IsSafe os
      (ChildrenEnd (child 100 (stopped_by 19) ∷ child 102 (exited_with 0) ∷ []))
      (λ _ w'. IsGood w')
      (sigchld_handler os (child 100 (stopped_by 19) ∷ child 102 (exited_with 0) ∷ []) two_lists)
sigchld_handler-Good_example =
    sigchld_handler-Good os (child 100 (stopped_by 19) ∷ child 102 (exited_with 0) ∷ []) two_lists
      (two_lists-IsSound, two_lists-Serves)

boot-Good_example :
    IsSafe os
      (BootEnd os true (wait_for_ready_children 2 stops))
      (λ _ w'. IsGood w')
      (boot os true (prog ∷ []) stops start)
boot-Good_example = boot-Good os true (prog ∷ []) stops fresh
