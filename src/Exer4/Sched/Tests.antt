-- ===== src/Exer4/Sched/Tests.antt =====
-- The round-robin scheduler at concrete runs.
use cslab_os.Base.{ℕ, ◌+◌, ◌≡◌, refl, some, true, [], ◌∷◌, arith, length}
use cslab_os.Base.Int.{pos}
use cslab_os.ProcCommon.{stopped_by, exited_with}
use cslab_os.Exer4.Os.{Os, World, child, running}
use cslab_os.Exer4.Plist.Memory.{Proc}
use cslab_os.Exer4.Safe.{IsSafe}
use cslab_os.Exer4.Sched.Defs.{sigchld_handler, Vars}
use cslab_os.Exer4.Sched.Good.{IsGood, ChildrenEnd, with_procs, sigchld_handler-IsGood}
use cslab_os.Exer4.Sched.Rounds.{stops, starts, sigchld_handler-round}

abbrev os : Os
os = record {
  kill_ok = λ log pid sig. true;
  fork = λ log. some (100 + length log);
  malloc = λ log. some [];
}

abbrev task : ℕ → Proc
task n = record { id = pos n; pid = 100 + n; name = [] }

abbrev two : World Vars
two = with_procs (task 0 ∷ task 1 ∷ []) 2 []

two-IsGood : IsGood two
two-IsGood = record { some_proc = omega arith; pids = λ p. ground arith }

sigchld_handler-IsGood_example :
    IsSafe os
      (ChildrenEnd (child 100 (stopped_by 19) ∷ child 101 (exited_with 0) ∷ []))
      (λ _ w'. IsGood w')
      (sigchld_handler os (child 100 (stopped_by 19) ∷ child 101 (exited_with 0) ∷ []) two)
sigchld_handler-IsGood_example =
    sigchld_handler-IsGood os (child 100 (stopped_by 19) ∷ child 101 (exited_with 0) ∷ []) two
      two-IsGood

sigchld_handler-round_example :
    sigchld_handler os (stops 19 (task 0 ∷ task 1 ∷ [])) two
    ≡ running tt (with_procs (task 0 ∷ task 1 ∷ []) 2 (starts (task 1 ∷ task 0 ∷ []) []))
sigchld_handler-round_example =
    sigchld_handler-round os (λ log p s. refl) 19 2 (task 0) (task 1 ∷ []) []
