-- ===== src/Base/Counts.antt =====
-- How often a test passes on a list, and what searching and erasing do to that number.
use Prim.Native.Nat.{◌+◌, ◌≤◌, ◌<◌}
use mathlib.Core.Path.{◌≡◌, refl, ap}
use mathlib.Core.Logic.{inl, inr}
use mathlib.Core.Bool.{Bool, true, false}
use mathlib.Core.Option.{none, some}
use mathlib.Core.List.{List, [], ◌∷◌, ◌++◌}
use native.Mathlib.Omega.{arith}
use cslab_os.Base.Tests.{Bool-cases, if◌then◌else◌}
use cslab_os.Base.Lists.{find?, erase_first, count, rotate}

module _ {ℓ} {A : Type ℓ} where
  pub count-append : (t : A → Bool) (xs ys : List A) → count t (xs ++ ys) ≡ count t xs + count t ys
  count-append t [] ys = omega arith
  count-append t (x ∷ xs) ys = ground (arith, count-append t xs ys)

  pub count-rotate : (t : A → Bool) (xs : List A) → count t (rotate xs) ≡ count t xs
  count-rotate t [] = refl
  count-rotate t (x ∷ xs) = ground (arith, count-append t xs (x ∷ []))

  pub find?-test : (t : A → Bool) (xs : List A) {v : A} → find? t xs ≡ some v → t v ≡ true
  find?-test t [] e = cc
  find?-test t (x ∷ xs) {v} e = ground (arith, find?-test t xs {v = v})

  pub count-pos_of_find? :
      (t u : A → Bool) (xs : List A) {v : A} → find? t xs ≡ some v → u v ≡ true → 0 < count u xs
  count-pos_of_find? t u [] e h = cc
  count-pos_of_find? t u (x ∷ xs) {v} e h = ground (arith, count-pos_of_find? t u xs {v = v})

  pub count-none : (t : A → Bool) (xs : List A) → find? t xs ≡ none → count t xs ≡ 0
  count-none t [] e = refl
  count-none t (x ∷ xs) e = ground (arith, count-none t xs)

  -- The element found by one test is the one that another, unique test finds.
  pub find?-unique :
      (t u : A → Bool) (xs : List A) {v : A}
      → find? t xs ≡ some v
      → u v ≡ true
      → count u xs ≤ 1
      → find? u xs ≡ some v
  find?-unique t u [] e h one = cc
  find?-unique t u (x ∷ xs) {v} e h one =
      ground (arith, find?-unique t u xs {v = v}, count-pos_of_find? t u xs {v = v})

  pub count-erase_first :
      (t u : A → Bool) (xs : List A) {v : A}
      → find? t xs ≡ some v
      → count u xs ≡ count u (erase_first t xs) + (if u v then 1 else 0)
  count-erase_first t u [] e = cc
  count-erase_first t u (x ∷ xs) {v} e = ground (arith, count-erase_first t u xs {v = v})

  pub count-erase_first-le :
      (t u : A → Bool) (xs : List A) → count u (erase_first t xs) ≤ count u xs
  count-erase_first-le t u [] = omega arith
  count-erase_first-le t u (x ∷ xs) = ground (arith, count-erase_first-le t u xs)

  -- What the test of the erased element does not touch is kept.
  pub count-erase_first-eq :
      (t u : A → Bool) (xs : List A)
      → ((a : A) → t a ≡ true → u a ≡ false)
      → count u (erase_first t xs) ≡ count u xs
  count-erase_first-eq t u [] apart = refl
  count-erase_first-eq t u (x ∷ xs) apart = ground (arith, apart x, count-erase_first-eq t u xs)

  pub erase_first-count_zero : (t : A → Bool) (xs : List A) → count t xs ≡ 0 → erase_first t xs ≡ xs
  erase_first-count_zero t [] z = refl
  erase_first-count_zero t (x ∷ xs) z = ground (arith, erase_first-count_zero t xs)

  pub find?-count_zero : (t : A → Bool) (xs : List A) → count t xs ≡ 0 → find? t xs ≡ none
  find?-count_zero t [] z = refl
  find?-count_zero t (x ∷ xs) z = ground (arith, find?-count_zero t xs)

  pub count-erase_first_self :
      (t : A → Bool) (xs : List A) → count t xs ≤ 1 → count t (erase_first t xs) ≡ 0
  count-erase_first_self t [] one = refl
  count-erase_first_self t (x ∷ xs) one = ground (arith, count-erase_first_self t xs)

  -- Where the number is not 0, the test passes positivewhere.
  pub count-split :
      (t : A → Bool) (xs : List A)
      → 0 < count t xs
      → (before : List A) × (a : A) × (behind : List A) × (xs ≡ before ++ a ∷ behind) × (t a ≡ true)
  count-split t [] positive = absurd (omega (arith, positive))
  count-split t (x ∷ xs) positive = elim (Bool-cases (t x)) [
    | inl passes ↦ ([], x, xs, refl, passes)
    | inr rest ↦
        let (before, a, behind, e, passes) = count-split t xs (ground (arith, positive, rest)) in
        (x ∷ before, a, behind, ap (λ ys. x ∷ ys) e, passes)
  ]
