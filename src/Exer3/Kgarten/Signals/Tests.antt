-- ===== src/Exer3/Kgarten/Signals/Tests.antt =====
-- One child and one teacher. The teacher wants to leave while the child is inside, and sleeps. The child
-- then leaves without a signal, so that the teacher sleeps on although it may go.
use cslab_os.Base.{◌≡◌, refl, Bool, true, false, [], ◌∷◌, arith}
use cslab_os.Base.Int.{to_int, wrap}
use cslab_os.Exer3.Kgarten.Defs.{
  Kgarten, outside, exit_wait, next, holds, is_full, is_needed, is_bad, verify,
}
use cslab_os.Exer3.Kgarten.Local.{has_failed}
use cslab_os.Exer3.Kgarten.Signals.{
  awake, asleep, Actor, State, move_actor, note_after, waits, signals, sleeps, go, signal_nobody,
  start, Run, begin, step,
}
use cslab_os.Exer3.Kgarten.Signals.Progress.{CanStep, Run-CanStep}

abbrev both : Kgarten → Bool → Actor → Actor → State
both kg locked child teacher = record { kg = kg; locked = locked; actors = child ∷ teacher ∷ [] }

abbrev InRun : State → Type 0
InRun = Run 1 (true ∷ false ∷ [])

child_goes :
    {kg : Kgarten} {locked : Bool} {child teacher : Actor}
    → InRun (both kg locked child teacher)
    → child.note ≡ awake
    → has_failed child.thread.place ≡ false
    → holds child.thread.place ≡ locked
    → InRun (move_actor (both kg locked child teacher) [] child (teacher ∷ []))
child_goes {child = child} {teacher = teacher} run rested alive own =
    step run (go [] child (teacher ∷ []) refl rested alive own)

teacher_goes :
    {kg : Kgarten} {locked : Bool} {child teacher : Actor}
    → InRun (both kg locked child teacher)
    → teacher.note ≡ awake
    → has_failed teacher.thread.place ≡ false
    → holds teacher.thread.place ≡ locked
    → InRun (move_actor (both kg locked child teacher) (child ∷ []) teacher [])
teacher_goes {child = child} {teacher = teacher} run rested alive own =
    step run (go (child ∷ []) teacher [] refl rested alive own)

abbrev missed : State
missed =
    both (record { vt = 1; vc = 0; ratio = 1 }) false
      (record { thread = record { is_child = true; place = outside }; note = awake })
      (record { thread = record { is_child = false; place = exit_wait }; note = asleep })

missed-Run : InRun missed
unfolding start next holds is_full is_needed is_bad verify has_failed note_after waits signals
    sleeps to_int wrap
missed-Run =
    child_goes
      (child_goes
        (child_goes
          (child_goes
            (child_goes
              (child_goes
                (teacher_goes
                  (teacher_goes
                    (teacher_goes
                      (teacher_goes
                        (teacher_goes
                          (step
                            (child_goes
                              (child_goes
                                (child_goes
                                  (child_goes
                                    (teacher_goes
                                      (teacher_goes (teacher_goes begin refl refl refl) refl refl
                                        refl)
                                      refl refl refl)
                                    refl refl refl)
                                  refl refl refl)
                                refl refl refl)
                              refl refl refl)
                            (signal_nobody [] _ (_ ∷ []) refl refl refl))
                          refl refl refl)
                        refl refl refl)
                      refl refl refl)
                    refl refl refl)
                  refl refl refl)
                refl refl refl)
              refl refl refl)
            refl refl refl)
          refl refl refl)
        refl refl refl)
      refl refl refl

-- The sleeping teacher may go.
missed-free : is_needed missed.kg ≡ false
unfolding is_needed to_int wrap
missed-free = refl

Run-CanStep_example : CanStep missed
Run-CanStep_example =
    Run-CanStep 1 (true ∷ false ∷ [])
      (record { threads_in_int = omega arith; product_in_int = omega arith }) (omega arith)
      (omega arith) missed-Run
