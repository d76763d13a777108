-- ===== src/Exer4/Session/Tests.antt =====
-- The shell gets the line "k 1" after the start.
use cslab_os.Base.{some, length, ◌<◌, ◌≡◌, refl, ◌⊎◌, true, List, [], ◌∷◌, ℕ, arith}
use cslab_os.Base.Int.{pos, ℤ}
use cslab_os.Text.{fgets, c_string, atoi, signed_value, digits_value}
use cslab_os.Exer4.Prio.Tests.{os, prog, stops, after_boot, fresh, boot_run}
use cslab_os.Exer4.Prio.Create.{FreshChild}
use cslab_os.Exer4.Cmdline.Defs.{
  kill_task, get_cmdline, strip_newline, process_cmdline, argument_command,
}
use cslab_os.Exer4.Session.{awaiting, reading, State, state, ask, Run, begin, step}
use cslab_os.Exer4.Session.Args.{shell_main, do_shell, fd_arg, arg_size, shell_main-do_shell}
use cslab_os.Exer4.Session.Protocol.{Sound, CanAdvance, Refuses, Run-Sound, Run-CanAdvance}

abbrev line : List ℕ
line = 107 ∷ 32 ∷ 49 ∷ 10 ∷ []

abbrev asked_state : State
asked_state = state [] (awaiting (kill_task (pos 1))) reading (kill_task (pos 1) ∷ []) [] after_boot

no_clash : FreshChild os after_boot
no_clash p e = ground arith

asked_run : Run os asked_state
unfolding get_cmdline fgets c_string strip_newline process_cmdline argument_command atoi
    signed_value digits_value
asked_run =
    step (begin line true (prog ∷ []) stops fresh boot_run) no_clash
      (ask (kill_task (pos 1)) refl refl)

abbrev no_answers : List ℤ
no_answers = []

Run-Sound_example : Sound os asked_state
Run-Sound_example = Run-Sound os asked_run

Run-CanAdvance_example :
    CanAdvance os asked_state
    ⊎ ((reading ≡ reading)
        × (kill_task (pos 1) ∷ [] ≡ kill_task (pos 1) ∷ [])
        × (no_answers ≡ [])
        × Refuses os (kill_task (pos 1)) after_boot)
Run-CanAdvance_example = Run-CanAdvance os asked_run no_clash

-- The descriptors 4 and 5 of two new pipes.
shell_main-do_shell_example :
    (shell_main (do_shell 4 5) ≡ some (pos 4, pos 5))
    × (length (fd_arg 4) < arg_size)
    × (length (fd_arg 5) < arg_size)
shell_main-do_shell_example =
    shell_main-do_shell 4 5 (omega arith) (omega arith) (omega arith) (omega arith)
