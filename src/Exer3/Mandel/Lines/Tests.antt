-- ===== src/Exer3/Mandel/Lines/Tests.antt =====
-- Twenty-five threads, of which the first one has computed its two lines and printed a point.
use cslab_os.Base.{◌≡◌, refl, ◌⊎◌, arith}
use cslab_os.Exer3.Mandel.Turns
use cslab_os.Exer3.Mandel.Turns.{update}
use cslab_os.Exer3.Mandel.Turns.Rows.{rows}
use cslab_os.Exer3.Mandel.Lines.{
  size, State, compute, computed, wait, print, start, Run, begin, step,
}
use cslab_os.Exer3.Mandel.Lines.Refines.{lines, plain, Run-Reach}
use cslab_os.Exer3.Mandel.Lines.Progress.{CanDraw, Run-CanDraw}

printed_one : (s : State) × Run 25 s
unfolding start update size
printed_one = (
  _,
  step
      (step
        (step
          (step (step begin (compute 0 0 (omega arith) refl (omega arith)))
            (compute 0 1 (omega arith) refl (omega arith)))
          (computed 0 (omega arith) refl))
        (wait 0 0 0 (omega arith) refl (omega arith) refl))
      (print 0 0 0 (omega arith) refl (omega arith)),
)

Run-Reach_example : Turns.Reach (lines 25) 25 (plain 25 printed_one.0)
Run-Reach_example = Run-Reach 25 (omega arith) printed_one.1

Run-CanDraw_example : CanDraw 25 printed_one.0 ⊎ (printed_one.0.output ≡ rows (lines 25))
Run-CanDraw_example = Run-CanDraw 25 (omega arith) printed_one.1
