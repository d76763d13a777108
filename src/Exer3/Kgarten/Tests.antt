-- ===== src/Exer3/Kgarten/Tests.antt =====
-- A teacher comes in, and a child after it.
use cslab_os.Base.{
  some, Bool, List, not, length, count, ◌≡◌, ◌-◌, arith, refl, true, false, [], ◌∷◌,
}
use cslab_os.Base.Int.{to_int, wrap}
use cslab_os.Exer3.Kgarten.Defs.{
  is_bad, is_needed, System, Thread, next, holds, pick, Reach, start, later, entering, Place,
  inside, enter_go, entered,
}
use cslab_os.Text.Decimal.{decimal}
use cslab_os.Exer3.Kgarten.Signals
use cslab_os.Exer3.Kgarten.Main.{main, main-decimal}
use cslab_os.Exer3.Kgarten.Safety.{IsSound, Reach-IsSound}

-- After the teacher took the mutex, came in and gave the mutex back.
abbrev teacher_in : System
teacher_in = record {
  kg = record { vt = 1; vc = 0; ratio = 2 };
  locked = false;
  threads =
      record { is_child = true; place = entering }
      ∷ record { is_child = false; place = inside }
      ∷ [];
}

abbrev child : Thread
child = record { is_child = true; place = entering }

abbrev teacher_at : Place → Thread
teacher_at p = record { is_child = false; place = p }

teacher_in-Reach : Reach 2 (true ∷ false ∷ []) teacher_in
unfolding next holds
teacher_in-Reach =
    later
      (later (later start (pick (child ∷ []) (teacher_at entering) [] refl refl))
        (pick (child ∷ []) (teacher_at enter_go) [] refl refl))
      (pick (child ∷ []) (teacher_at entered) [] refl refl)

Reach-IsSound_example : IsSound teacher_in
Reach-IsSound_example =
    Reach-IsSound 2 (true ∷ false ∷ [])
      (record { threads_in_int = omega arith; product_in_int = omega arith }) teacher_in-Reach

-- Three threads, of which two are children, with a ratio of 1.
main-decimal_example :
    (children : List Bool) × (main (decimal 3 ∷ decimal 2 ∷ decimal 1 ∷ [])
      ≡ some (Signals.start 1 children))
    × (length children ≡ 3)
    × (count not children ≡ 3 - 2)
main-decimal_example =
    main-decimal 3 2 1 (omega arith) (omega arith) (omega arith) (omega arith) (omega arith)

-- With the largest ratio the product of two teachers wraps around, and `verify` finds one child too many.
is_bad-wraps : is_bad (record { vt = 2; vc = 1; ratio = 2147483647 }) ≡ true
unfolding is_bad to_int wrap
is_bad-wraps = refl

-- Three teachers without a child then all wait to leave.
is_needed-wraps : is_needed (record { vt = 3; vc = 0; ratio = 2147483647 }) ≡ true
unfolding is_needed to_int wrap
is_needed-wraps = refl
