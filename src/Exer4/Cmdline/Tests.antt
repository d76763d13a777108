-- ===== src/Exer4/Cmdline/Tests.antt =====
-- The shell's command lines at concrete input.
use cslab_os.Base.{ℕ, ◌≡◌, refl, arith, List, [], ◌∷◌}
use cslab_os.Base.Int.{pos}
use cslab_os.Exer4.Cmdline.Defs.{issue, kill_task, high_task, low_task, process_cmdline}
use cslab_os.Exer4.Cmdline.Requests.{process_cmdline-decimal}

-- "k 42"
abbrev kill_42 : List ℕ
kill_42 = 107 ∷ 32 ∷ 52 ∷ 50 ∷ []

process_cmdline-decimal_example :
    (process_cmdline kill_42 ≡ issue (kill_task (pos 42)))
    × (process_cmdline (104 ∷ 32 ∷ 52 ∷ 50 ∷ []) ≡ issue (high_task (pos 42)))
    × (process_cmdline (108 ∷ 32 ∷ 52 ∷ 50 ∷ []) ≡ issue (low_task (pos 42)))
process_cmdline-decimal_example = process_cmdline-decimal 4 (2 ∷ []) refl (omega arith)
