-- ===== src/Exer4/Shell/Tests.antt =====
-- The scheduler of exer4/shell beside that of exer4/prio at a concrete run.
use cslab_os.Base.{ℕ, refl, some, true, [], ◌∷◌, length, ◌+◌}
use cslab_os.Base.Int.{pos}
use cslab_os.ProcCommon.{stopped_by}
use cslab_os.Exer4.Os.{Os, child}
use cslab_os.Exer4.Plist.Memory.{Proc}
use cslab_os.Exer4.Prio.Defs
use cslab_os.Exer4.Prio.Defs.{child_changed}
use cslab_os.Exer4.Shell.Defs as Shell
use cslab_os.Exer4.Shell.Handlers.{Same, at, at_low}
use cslab_os.Exer4.Shell.Simulates.{handle-Same}

abbrev os : Os
os = record {
  kill_ok = λ log pid sig. true;
  fork = λ log. some (100 + length log);
  malloc = λ log. some [];
}

abbrev task : ℕ → Proc
task n = record { id = pos n; pid = 100 + n; name = [] }

handle-Same_example :
    Same
      (Shell.handle os
        (child_changed (child 100 (stopped_by 19) ∷ []))
        (at (task 0) (task 1 ∷ []) 2 []))
      (Defs.handle os
        (child_changed (child 100 (stopped_by 19) ∷ []))
        (at_low (task 0) (task 1 ∷ []) 2 []))
handle-Same_example =
    handle-Same os (child_changed (child 100 (stopped_by 19) ∷ [])) (task 0) (task 1 ∷ []) 2 [] refl
