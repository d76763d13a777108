-- ===== src/Text/Strtol.antt =====
-- The library's `strtol` in base 10, for a `long` of 64 bits.
use cslab_os.Base.{
  ℕ, ◌+◌, ◌-◌, ◌^◌, ◌<◌, ◌≡◌, refl, ap, ◌∙◌, ltb, ◌==◌, true, false, Option, none, some, List, [],
  ◌∷◌, if◌then◌else◌, arith, any, length,
}
use cslab_os.Base.Int.{ℤ, pos, negsuc, negate, is_int}
use cslab_os.Text.{is_digit, is_space, digits_value}
use cslab_os.Text.Numbers.{chars, is_no_digit}
use cslab_os.Text.Decimal.{decimal, digits_value-decimal, digits-digits, digits, digits-pos}

unfoldable pub after_digits : List ℕ → List ℕ
after_digits [] = []
after_digits (c ∷ cs) = let rest = after_digits cs in if is_digit c then rest else c ∷ cs

-- The number and the characters from `endp` on, or none where `endp` is the string.
unfoldable pub unsigned : List ℕ → Option (ℕ × List ℕ)
unsigned [] = none
unsigned (c ∷ cs) =
    if is_digit c then some (digits_value 0 (c ∷ cs), after_digits (c ∷ cs)) else none

-- LONG_MIN and LONG_MAX stand for the numbers beyond them.
unfoldable pub clamp : ℤ → ℤ
clamp (pos n) = pos (if ltb n (2 ^ 63) then n else 2 ^ 63 - 1)
clamp (negsuc n) = negsuc (if ltb n (2 ^ 63) then n else 2 ^ 63 - 1)

pub clamp_small : (n : ℕ) → n < 2 ^ 63 → clamp (pos n) ≡ pos n
unfolding clamp
clamp_small n small = let fits : ltb n (2 ^ 63) ≡ true = ground arith in rw fits refl

-- An `int` is a `long`.
pub clamp-is_int : (z : ℤ) → is_int z ≡ true → clamp z ≡ z
unfolding clamp is_int
clamp-is_int (pos n) fits =
    let below : ltb n (2 ^ 63) ≡ true = ground (arith, fits) in rw below refl
clamp-is_int (negsuc n) fits =
    let below : ltb n (2 ^ 63) ≡ true = ground (arith, fits) in rw below refl

abbrev pub with_sign : (ℕ → ℤ) → Option (ℕ × List ℕ) → Option (ℤ × List ℕ)
with_sign sign none = none
with_sign sign (some (n, rest)) = some (clamp (sign n), rest)

unfoldable pub signed : List ℕ → Option (ℤ × List ℕ)
signed [] = none
signed (c ∷ cs) =
    if c == 45
    then with_sign negate (unsigned cs)
    else if c == 43
    then with_sign pos (unsigned cs)
    else with_sign pos (unsigned (c ∷ cs))

unfoldable pub strtol : List ℕ → Option (ℤ × List ℕ)
strtol [] = none
strtol (c ∷ cs) = let rest = strtol cs in if is_space c then rest else signed (c ∷ cs)

after_digits-chars : (ds : List ℕ) → any is_no_digit ds ≡ false → after_digits (chars ds) ≡ []
unfolding after_digits
after_digits-chars [] digits = refl
after_digits-chars (d ∷ ds) digits =
    let digit : is_digit (48 + d) ≡ true = ground arith in
    rw (digit, after_digits-chars ds (ground arith)) refl

strtol-chars :
    (ds : List ℕ)
    → 0 < length ds
    → any is_no_digit ds ≡ false
    → strtol (chars ds) ≡ some (clamp (pos (digits_value 0 (chars ds))), [])
unfolding strtol signed unsigned
strtol-chars [] more digits = absurd (omega (arith, more))
strtol-chars (d ∷ ds) more digits =
    let small : d < 10 = ground arith in
    let no_space : is_space (48 + d) ≡ false = ground arith in
    let no_minus : (48 + d == 45) ≡ false = ground arith in
    let no_plus : (48 + d == 43) ≡ false = ground arith in
    let digit : is_digit (48 + d) ≡ true = ground arith in
    rw (no_space, no_minus, no_plus, digit, after_digits-chars (d ∷ ds) digits) refl

-- A decimal number is read whole.
pub strtol-decimal : (n : ℕ) → n < 2 ^ 32 → strtol (decimal n) ≡ some (pos n, [])
unfolding clamp
strtol-decimal n small =
    let short : ltb n (2 ^ 63) ≡ true = ground arith in
    let kept : clamp (pos n) ≡ pos n = rw short refl in
    strtol-chars (digits 10 n) (digits-pos 9 n) (digits-digits 10 n)
    ∙ ap (λ m. some (clamp (pos m), [])) (digits_value-decimal n small)
    ∙ ap (λ v. some (v, [])) kept
