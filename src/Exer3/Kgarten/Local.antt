-- ===== src/Exer3/Kgarten/Local.antt =====
-- One step of one thread, beside the numbers of the others.
use native.Mathlib.Nat.{mul_comm, mul-suc, mul-le-mul_left}
use cslab_os.Base.{
  ℕ, ap, Bool-cases, inl, inr, ◌+◌, ◌-◌, ◌*◌, ◌≤◌, ◌<◌, ◌≡◌, ◌^◌, ◌∙◌, ◌==◌, sym, refl, Bool, true,
  false, arith, ltb, not, ◌&&◌,
}
use cslab_os.Base.Int.{to_int_small}
use cslab_os.Exer3.Kgarten.Defs.{
  Kgarten, Place, entering, enter_test, enter_wait, enter_go, entered, inside, check_in, checked_in,
  exiting, exit_test, exit_wait, exit_go, exited, outside, check_out, checked_out, failed, is_full,
  is_needed, is_bad, verify, next, holds,
}

-- The thread is counted as inside.
unfoldable pub counts : Place → Bool
counts entered = true
counts inside = true
counts check_in = true
counts checked_in = true
counts exiting = true
counts exit_test = true
counts exit_wait = true
counts exit_go = true
counts _ = false

-- A child that passed its test.
unfoldable pub may_enter : Bool → Place → Bool
may_enter true enter_go = true
may_enter _ _ = false

-- A teacher that passed its test.
unfoldable pub may_exit : Bool → Place → Bool
may_exit false exit_go = true
may_exit _ _ = false

unfoldable pub has_failed : Place → Bool
has_failed failed = true
has_failed _ = false

abbrev pub bit : Bool → ℕ
bit true = 1
bit false = 0

-- A thread at a place, beside others: `a` children and `b` teachers inside, `h` with the mutex, `g`
-- children that passed their test, `x` teachers that passed theirs.
pub record Fits (a b h g x : ℕ) (locked child : Bool) (p : Place) (kg : Kgarten) : Type 0 where
  pub children : kg.vc ≡ bit (child && counts p) + a
  pub teachers : kg.vt ≡ bit (not child && counts p) + b
  pub one : bit locked ≡ bit (holds p) + h
  pub watched : kg.vc ≤ kg.ratio * kg.vt
  pub room : 0 < bit (may_enter child p) + g → kg.vc + 1 ≤ kg.ratio * kg.vt
  pub spare : 0 < bit (may_exit child p) + x → kg.vc ≤ kg.ratio * (kg.vt - 1)
  pub fine : has_failed p ≡ false

-- No product or sum of the tests goes beyond an `int`.
pub record IsSmall (kg : Kgarten) : Type 0 where
  pub room_in_int : kg.vc + 1 < 2 ^ 31
  pub product_in_int : kg.ratio * kg.vt < 2 ^ 31

module _ (kg : Kgarten) (small : IsSmall kg) where
  -- Then the tests compare the numbers themselves.
  pub is_full-small : is_full kg ≡ ltb (kg.ratio * kg.vt) (kg.vc + 1)
  unfolding is_full
  is_full-small =
      rw
        (
          to_int_small (kg.vc + 1) small.room_in_int,
          to_int_small (kg.ratio * kg.vt) small.product_in_int,
        )
        refl

  pub is_needed-small : 0 < kg.vt → is_needed kg ≡ ltb (kg.ratio * (kg.vt - 1)) kg.vc
  unfolding is_needed
  is_needed-small some_teacher =
      let not_zero : (kg.vt == 0) ≡ false = ground (arith, some_teacher) in
      let less : kg.ratio * (kg.vt - 1) < 2 ^ 31 =
        omega (arith, small.product_in_int, mul-le-mul_left kg.ratio (fewer kg.vt)) in
      rw
        (
          not_zero,
          to_int_small kg.vc (omega (arith, small.room_in_int)),
          to_int_small (kg.ratio * (kg.vt - 1)) less,
        )
        refl
    where
      fewer : (n : ℕ) → n - 1 ≤ n
      fewer n = omega arith

  is_bad-small : is_bad kg ≡ ltb (kg.vt * kg.ratio) kg.vc
  unfolding is_bad
  is_bad-small =
      let less : kg.vt * kg.ratio < 2 ^ 31 =
        omega (arith, small.product_in_int, mul_comm kg.vt kg.ratio) in
      rw
        (
          to_int_small kg.vc (omega (arith, small.room_in_int)),
          to_int_small (kg.vt * kg.ratio) less,
        )
        refl

  room_left : is_full kg ≡ false → kg.vc + 1 ≤ kg.ratio * kg.vt
  room_left e = let e' = sym is_full-small ∙ e in ground (arith, e')

  not_needed : 0 < kg.vt → is_needed kg ≡ false → kg.vc ≤ kg.ratio * (kg.vt - 1)
  not_needed some_teacher e = let e' = sym (is_needed-small some_teacher) ∙ e in ground (arith, e')

module _ (a b h g x : ℕ) (locked : Bool) (gh : g ≤ h) (xh : x ≤ h) where
  -- The one that moves has the mutex or takes it, so no other has it.
  alone :
      (child : Bool) (p : Place) (kg : Kgarten)
      → holds p ≡ locked
      → Fits a b h g x locked child p kg
      → h ≡ 0
  alone child p kg own f = omega (arith, f.one, ap bit own)

  Fits-keep :
      (child : Bool) (p q : Place) (kg : Kgarten)
      → holds p ≡ locked
      → Fits a b h g x locked child p kg
      → counts q ≡ counts p
      → (may_enter child q ≡ true → kg.vc + 1 ≤ kg.ratio * kg.vt)
      → (may_exit child q ≡ true → kg.vc ≤ kg.ratio * (kg.vt - 1))
      → has_failed q ≡ false
      → Fits a b h g x (holds q) child q kg
  Fits-keep child p q kg own f same room spare fine =
      let none_else = alone child p kg own f in
      record {
        children = rw same f.children;
        teachers = rw same f.teachers;
        one = omega (arith, none_else);
        watched = f.watched;
        room = λ k. elim (Bool-cases (may_enter child q)) [
          | inl may ↦ room may
          | inr not_may ↦ absurd (omega (arith, none_else, ap bit not_may))
        ];
        spare = λ k. elim (Bool-cases (may_exit child q)) [
          | inl may ↦ spare may
          | inr not_may ↦ absurd (omega (arith, none_else, ap bit not_may))
        ];
        fine = fine;
      }

  -- `verify` finds nothing wrong.
  verify-ok :
      (child : Bool) (p ok : Place) (kg : Kgarten)
      → IsSmall kg
      → Fits a b h g x locked child p kg
      → verify ok kg ≡ ok
  unfolding verify
  verify-ok child p ok kg small f =
      let fine : ltb (kg.vt * kg.ratio) kg.vc ≡ false =
        ground (arith, f.watched, mul_comm kg.vt kg.ratio) in
      rw (is_bad-small kg small, fine) refl

  pub Fits-next :
      (child : Bool) (p : Place) (kg : Kgarten)
      → holds p ≡ locked
      → IsSmall kg
      → Fits a b h g x locked child p kg
      → Fits a b h g x (holds (next child p kg).1) child (next child p kg).1 (next child p kg).0
  unfolding next holds counts may_enter may_exit has_failed
  Fits-next true entering kg own small f =
      Fits-keep true entering enter_test kg own f refl (λ e. cc) (λ e. cc) refl
  Fits-next false entering kg own small f =
      Fits-keep false entering enter_go kg own f refl (λ e. cc) (λ e. cc) refl
  Fits-next true enter_test kg own small f = elim (Bool-cases (is_full kg)) [
    | inl full ↦
        rw full (Fits-keep true enter_test enter_wait kg own f refl (λ e. cc) (λ e. cc) refl)
    | inr fits ↦ rw fits (
        Fits-keep true enter_test enter_go kg own f refl (λ e. room_left kg small fits) (λ e. cc)
          refl)
  ]
  Fits-next true enter_wait kg own small f =
      Fits-keep true enter_wait enter_test kg own f refl (λ e. cc) (λ e. cc) refl
  Fits-next false enter_test kg own small f = elim (Bool-cases (is_full kg)) [
    | inl full ↦
        rw full (Fits-keep false enter_test enter_wait kg own f refl (λ e. cc) (λ e. cc) refl)
    | inr fits ↦
        rw fits (Fits-keep false enter_test enter_go kg own f refl (λ e. cc) (λ e. cc) refl)
  ]
  Fits-next false enter_wait kg own small f =
      Fits-keep false enter_wait enter_test kg own f refl (λ e. cc) (λ e. cc) refl
  Fits-next true enter_go kg own small f =
      let none_else = alone true enter_go kg own f in
      record {
        children = omega (arith, f.children);
        teachers = omega (arith, f.teachers);
        one = omega (arith, none_else);
        watched = f.room (omega arith);
        room = λ k. absurd (omega (arith, none_else));
        spare = λ k. absurd (omega (arith, none_else));
        fine = refl;
      }
  Fits-next false enter_go kg own small f =
      let none_else = alone false enter_go kg own f in
      record {
        children = omega (arith, f.children);
        teachers = omega (arith, f.teachers);
        one = omega (arith, none_else);
        watched = omega (arith, f.watched, mul-suc kg.ratio kg.vt);
        room = λ k. absurd (omega (arith, none_else));
        spare = λ k. absurd (omega (arith, none_else));
        fine = refl;
      }
  Fits-next true entered kg own small f =
      Fits-keep true entered inside kg own f refl (λ e. cc) (λ e. cc) refl
  Fits-next true inside kg own small f =
      Fits-keep true inside check_in kg own f refl (λ e. cc) (λ e. cc) refl
  Fits-next true check_in kg own small f =
      rw (verify-ok true check_in checked_in kg small f)
        (Fits-keep true check_in checked_in kg own f refl (λ e. cc) (λ e. cc) refl)
  Fits-next true checked_in kg own small f =
      Fits-keep true checked_in exiting kg own f refl (λ e. cc) (λ e. cc) refl
  Fits-next false entered kg own small f =
      Fits-keep false entered inside kg own f refl (λ e. cc) (λ e. cc) refl
  Fits-next false inside kg own small f =
      Fits-keep false inside check_in kg own f refl (λ e. cc) (λ e. cc) refl
  Fits-next false check_in kg own small f =
      rw (verify-ok false check_in checked_in kg small f)
        (Fits-keep false check_in checked_in kg own f refl (λ e. cc) (λ e. cc) refl)
  Fits-next false checked_in kg own small f =
      Fits-keep false checked_in exiting kg own f refl (λ e. cc) (λ e. cc) refl
  Fits-next true exiting kg own small f =
      Fits-keep true exiting exit_go kg own f refl (λ e. cc) (λ e. cc) refl
  Fits-next false exiting kg own small f =
      Fits-keep false exiting exit_test kg own f refl (λ e. cc) (λ e. cc) refl
  Fits-next true exit_test kg own small f = elim (Bool-cases (is_needed kg)) [
    | inl needed ↦
        rw needed (Fits-keep true exit_test exit_wait kg own f refl (λ e. cc) (λ e. cc) refl)
    | inr spare ↦ rw spare (Fits-keep true exit_test exit_go kg own f refl (λ e. cc) (λ e. cc) refl)
  ]
  Fits-next true exit_wait kg own small f =
      Fits-keep true exit_wait exit_test kg own f refl (λ e. cc) (λ e. cc) refl
  Fits-next false exit_test kg own small f = elim (Bool-cases (is_needed kg)) [
    | inl needed ↦
        rw needed (Fits-keep false exit_test exit_wait kg own f refl (λ e. cc) (λ e. cc) refl)
    | inr spare ↦ rw spare (
        Fits-keep false exit_test exit_go kg own f refl (λ e. cc)
          (λ e. not_needed kg small (omega (arith, f.teachers)) spare) refl)
  ]
  Fits-next false exit_wait kg own small f =
      Fits-keep false exit_wait exit_test kg own f refl (λ e. cc) (λ e. cc) refl
  Fits-next true exit_go kg own small f =
      let none_else = alone true exit_go kg own f in
      record {
        children = omega (arith, f.children);
        teachers = omega (arith, f.teachers);
        one = omega (arith, none_else);
        watched = omega (arith, f.watched);
        room = λ k. absurd (omega (arith, none_else));
        spare = λ k. absurd (omega (arith, none_else));
        fine = refl;
      }
  Fits-next false exit_go kg own small f =
      let none_else = alone false exit_go kg own f in
      record {
        children = omega (arith, f.children);
        teachers = omega (arith, f.teachers);
        one = omega (arith, none_else);
        watched = f.spare (omega arith);
        room = λ k. absurd (omega (arith, none_else));
        spare = λ k. absurd (omega (arith, none_else));
        fine = refl;
      }
  Fits-next true exited kg own small f =
      Fits-keep true exited outside kg own f refl (λ e. cc) (λ e. cc) refl
  Fits-next true outside kg own small f =
      Fits-keep true outside check_out kg own f refl (λ e. cc) (λ e. cc) refl
  Fits-next true check_out kg own small f =
      rw (verify-ok true check_out checked_out kg small f)
        (Fits-keep true check_out checked_out kg own f refl (λ e. cc) (λ e. cc) refl)
  Fits-next true checked_out kg own small f =
      Fits-keep true checked_out entering kg own f refl (λ e. cc) (λ e. cc) refl
  Fits-next true failed kg own small f = cc
  Fits-next false exited kg own small f =
      Fits-keep false exited outside kg own f refl (λ e. cc) (λ e. cc) refl
  Fits-next false outside kg own small f =
      Fits-keep false outside check_out kg own f refl (λ e. cc) (λ e. cc) refl
  Fits-next false check_out kg own small f =
      rw (verify-ok false check_out checked_out kg small f)
        (Fits-keep false check_out checked_out kg own f refl (λ e. cc) (λ e. cc) refl)
  Fits-next false checked_out kg own small f =
      Fits-keep false checked_out entering kg own f refl (λ e. cc) (λ e. cc) refl
  Fits-next false failed kg own small f = cc
