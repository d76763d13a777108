-- ===== src/Base/Lists.antt =====
-- List functions measured by native numbers, and searches by a Boolean test.
use Prim.Native.Nat.{ℕ, zero, suc, ◌+◌}
use mathlib.Core.Path.{◌≡◌, refl}
use mathlib.Core.Bool.{Bool, true, false, ◌||◌}
use mathlib.Core.Logic.{◌⊎◌, inl, inr}
use mathlib.Core.Option.{Option, none, some}
use mathlib.Core.List.{List, [], ◌∷◌, ◌++◌}
use native.Mathlib.Omega.{arith}
use cslab_os.Base.Tests.{if◌then◌else◌}

module _ {ℓ} {A : Type ℓ} where
  abbrev pub length : List A → ℕ
  length [] = 0
  length (x ∷ xs) = suc (length xs)

  abbrev pub get_elem? : List A → ℕ → Option A
  get_elem? [] i = none
  get_elem? (x ∷ xs) zero = some x
  get_elem? (x ∷ xs) (suc i) = get_elem? xs i

  abbrev pub drop : ℕ → List A → List A
  drop zero xs = xs
  drop (suc n) [] = []
  drop (suc n) (x ∷ xs) = drop n xs

  abbrev pub take : ℕ → List A → List A
  take zero xs = []
  take (suc n) [] = []
  take (suc n) (x ∷ xs) = x ∷ take n xs

  abbrev pub replicate : ℕ → A → List A
  replicate zero a = []
  replicate (suc n) a = a ∷ replicate n a

  -- The first element that passes the test.
  abbrev pub find? : (A → Bool) → List A → Option A
  find? t [] = none
  find? t (x ∷ xs) = if t x then some x else find? t xs

  -- The list without the first element that passes the test.
  abbrev pub erase_first : (A → Bool) → List A → List A
  erase_first t [] = []
  erase_first t (x ∷ xs) = if t x then xs else x ∷ erase_first t xs

  abbrev pub any : (A → Bool) → List A → Bool
  any t [] = false
  any t (x ∷ xs) = t x || any t xs

  -- How many elements pass the test.
  abbrev pub count : (A → Bool) → List A → ℕ
  count t [] = 0
  count t (x ∷ xs) = if t x then suc (count t xs) else count t xs

  -- The head goes to the end.
  abbrev pub rotate : List A → List A
  rotate [] = []
  rotate (x ∷ xs) = xs ++ x ∷ []

  pub List-cases : (xs : List A) → (xs ≡ []) ⊎ ((x : A) × (ys : List A) × (xs ≡ x ∷ ys))
  List-cases [] = inl refl
  List-cases (x ∷ xs) = inr (x, xs, refl)

  pub length-append : (xs ys : List A) → length (xs ++ ys) ≡ length xs + length ys
  length-append [] ys = omega arith
  length-append (x ∷ xs) ys = omega (arith, length-append xs ys)

  pub erase_first-append :
      (t : A → Bool) (xs : List A) (y : A) (ys : List A)
      → any t xs ≡ false
      → t y ≡ true
      → erase_first t (xs ++ y ∷ ys) ≡ xs ++ ys
  erase_first-append t [] y ys miss hit = ground arith
  erase_first-append t (x ∷ xs) y ys miss hit = ground (arith, erase_first-append t xs y ys)

  pub any-append : (t : A → Bool) (xs ys : List A) → any t (xs ++ ys) ≡ (any t xs || any t ys)
  any-append t [] ys = refl
  any-append t (x ∷ xs) ys = ground (arith, any-append t xs ys)

  pub erase_first-none : (t : A → Bool) (xs : List A) → any t xs ≡ false → erase_first t xs ≡ xs
  erase_first-none t [] miss = refl
  erase_first-none t (x ∷ xs) miss = ground (arith, erase_first-none t xs)

  pub find?-none : (t : A → Bool) (xs : List A) → any t xs ≡ false → find? t xs ≡ none
  find?-none t [] miss = refl
  find?-none t (x ∷ xs) miss = ground (arith, find?-none t xs)
