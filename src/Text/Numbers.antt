-- ===== src/Text/Numbers.antt =====
-- `atoi` on decimal digits.
use cslab_os.Base.{
  ℕ, suc, ◌+◌, ◌-◌, ◌*◌, ◌^◌, ◌<◌, ◌≡◌, refl, sym, ap, ◌==◌, ltb, Bool, true, false, List, [], ◌∷◌,
  arith, length, any, map, not,
}
use cslab_os.Base.Int.{pos}
use native.Mathlib.Nat.{add-mul, mul_assoc, mul_comm, pow-suc}
use cslab_os.Text.{is_digit, is_space, digits_value, signed_value, atoi}

-- The characters of decimal digits, and the number that they write, by place value.
abbrev pub chars : List ℕ → List ℕ
chars ds = map (λ d. 48 + d) ds

abbrev pub place_value : List ℕ → ℕ
place_value [] = 0
place_value (d ∷ ds) = d * 10 ^ length ds + place_value ds

abbrev pub is_no_digit : ℕ → Bool
is_no_digit d = not (ltb d 10)

-- Another digit at the end of a number, before `k` more.
shift_digit : (acc d k : ℕ) → (acc * 10 + (48 + d - 48)) * 10 ^ k ≡ acc * 10 ^ suc k + d * 10 ^ k
shift_digit acc d k =
    let e : 48 + d - 48 ≡ d = omega arith in
    rw
      (
        e,
        add-mul (acc * 10) d (10 ^ k),
        mul_assoc acc 10 (10 ^ k),
        mul_comm 10 (10 ^ k),
        sym (pow-suc 10 k),
      )
      refl

pub digits_value-chars :
    (acc : ℕ) (ds : List ℕ)
    → any is_no_digit ds ≡ false
    → digits_value acc (chars ds) ≡ acc * 10 ^ length ds + place_value ds
unfolding digits_value
digits_value-chars acc [] digits = omega arith
digits_value-chars acc (d ∷ ds) digits =
    let digit : is_digit (48 + d) ≡ true = ground arith in
    let e = digits_value-chars (acc * 10 + (48 + d - 48)) ds (ground arith) in
    rw (digit, e) (omega (arith, shift_digit acc d (length ds)))

pub atoi-chars :
    (d : ℕ) (ds : List ℕ)
    → any is_no_digit (d ∷ ds) ≡ false
    → atoi (chars (d ∷ ds)) ≡ pos (place_value (d ∷ ds))
unfolding atoi signed_value
atoi-chars d ds digits =
    let small : d < 10 = ground arith in
    let no_space : is_space (48 + d) ≡ false = ground arith in
    let no_minus : (48 + d == 45) ≡ false = ground arith in
    let no_plus : (48 + d == 43) ≡ false = ground arith in
    let e = digits_value-chars 0 (d ∷ ds) digits in
    rw (no_space, no_minus, no_plus, e) (ap pos (omega arith))
