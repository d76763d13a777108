-- ===== src/Exer3/Mandel/Turns/Tests.antt =====
-- Two threads, of which the second has computed its line before the first one writes.
use cslab_os.Base.{◌+◌, ◌*◌, ◌≤◌, ◌≡◌, refl, ◌⊎◌, arith}
use cslab_os.Exer3.Mandel.Turns.{
  y_chars, State, update, compute, wait, print, start, Reach, begin, step,
}
use cslab_os.Exer3.Mandel.Turns.Rows.{rows}
use cslab_os.Exer3.Mandel.Turns.Ends
use cslab_os.Exer3.Mandel.Turns.Ends.{Run-steps}
use cslab_os.Exer3.Mandel.Turns.Picture.{IsBeginning, CanStep, Reach-IsBeginning, Reach-CanStep}

reached_some : (s : State) × Reach y_chars 2 s
unfolding start update
reached_some = (
  _,
  step
      (step
        (step (step begin (compute 1 1 (omega arith) refl (omega arith)))
          (compute 0 0 (omega arith) refl (omega arith)))
        (wait 0 0 0 (omega arith) refl refl))
      (print 0 0 0 (omega arith) refl (omega arith)),
)

Reach-IsBeginning_example : IsBeginning y_chars reached_some.0.output
Reach-IsBeginning_example = Reach-IsBeginning y_chars 2 (omega arith) reached_some.1

Reach-CanStep_example : CanStep y_chars 2 reached_some.0 ⊎ (reached_some.0.output ≡ rows y_chars)
Reach-CanStep_example = Reach-CanStep y_chars 2 (omega arith) reached_some.1

ran_twice : (s : State) × Ends.Run y_chars 2 2 s
unfolding start update
ran_twice = (
  _,
  Ends.step (Ends.step Ends.begin (compute 1 1 (omega arith) refl (omega arith)))
      (compute 0 0 (omega arith) refl (omega arith)),
)

Run-steps_example : 2 ≤ 2 * ((y_chars + 2) * 94)
Run-steps_example = Run-steps y_chars ran_twice.1
