-- ===== src/Exer3/Simplesync/Tests.antt =====
-- One change by each thread, with the mutex; the second one waits for it.
use cslab_os.Base.{◌⊎◌, refl, true, false, arith}
use cslab_os.Base.Int.{pos}
use cslab_os.Exer3.Simplesync.{
  mutex, State, decreased, lock, load, store, unlock, Reach, begin, step,
}
use cslab_os.Exer3.Simplesync.Ends.{CanStep, Finished, Reach-val}

both_ran : (s : State) × Reach 1 mutex s
both_ran = (
  _,
  step
      (step
        (step
          (step
            (step
              (step (step (step begin (lock false 0 refl (omega arith) refl)) (load false 0 refl))
                (store false 0 (pos 0) refl))
              (unlock false 0 refl))
            (lock true 0 refl (omega arith) refl))
          (load true 0 refl))
        (store true 0 (decreased (pos 0)) refl))
      (unlock true 0 refl),
)

Reach-val_example : CanStep 1 mutex both_ran.0 ⊎ Finished 1 both_ran.0
Reach-val_example = Reach-val both_ran.1
