-- ===== src/Text/Decimal.antt =====
-- A number written in decimal, and read back.
use native.Mathlib.Nat.{pow-suc, mul_assoc}
use cslab_os.Base.{
  subst, sym, List-cases, ap, ◌∙◌, ℕ, zero, suc, ◌+◌, ◌*◌, ◌/◌, ◌%◌, ◌^◌, ◌<◌, ◌≤◌, ◌≡◌, refl, ltb,
  false, List, [], ◌∷◌, ◌++◌, if◌then◌else◌, arith, length, any, length-append, any-append,
  Bool-cases, inl, inr,
}
use cslab_os.Base.Int.{pos}
use cslab_os.Text.{atoi, digits_value}
use cslab_os.Text.Lines.{is_end}
use cslab_os.Text.Numbers.{chars, place_value, is_no_digit, digits_value-chars, atoi-chars}

-- The decimal digits of a number below 10 ^ k.
unfoldable pub digits : ℕ → ℕ → List ℕ
digits zero n = []
digits (suc k) n =
    let front = digits k (n / 10) in if ltb n 10 then n ∷ [] else front ++ n % 10 ∷ []

place_value-snoc : (ds : List ℕ) (d : ℕ) → place_value (ds ++ d ∷ []) ≡ place_value ds * 10 + d
place_value-snoc [] d = omega arith
place_value-snoc (c ∷ ds) d =
    let one_more : length (ds ++ d ∷ []) ≡ suc (length ds) =
      omega (arith, length-append ds (d ∷ [])) in
    rw (one_more, place_value-snoc ds d, pow-suc 10 (length ds), ← mul_assoc c (10 ^ length ds) 10)
      (omega arith)

place_value-digits : (k n : ℕ) → n < 10 ^ k → place_value (digits k n) ≡ n
unfolding digits
place_value-digits zero n small = omega arith
place_value-digits (suc k) n small = elim (Bool-cases (ltb n 10)) [
  | inl one ↦ rw one (omega arith)
  | inr more ↦
      let small' : n / 10 < 10 ^ k = omega (arith, small, pow-suc 10 k) in
      rw (more, place_value-snoc (digits k (n / 10)) (n % 10), place_value-digits k (n / 10) small')
        (omega arith)
]

pub digits-digits : (k n : ℕ) → any is_no_digit (digits k n) ≡ false
unfolding digits
digits-digits zero n = refl
digits-digits (suc k) n = elim (Bool-cases (ltb n 10)) [
  | inl one ↦ rw one (ground arith)
  | inr more ↦
      let last : n % 10 < 10 = omega arith in
      rw (more, any-append is_no_digit (digits k (n / 10)) (n % 10 ∷ []), digits-digits k (n / 10))
        (ground arith)
]

length-digits : (k n : ℕ) → length (digits k n) ≤ k
unfolding digits
length-digits zero n = omega arith
length-digits (suc k) n =
    ground (arith, length-digits k (n / 10), length-append (digits k (n / 10)) (n % 10 ∷ []))

pub digits-pos : (k n : ℕ) → 0 < length (digits (suc k) n)
unfolding digits
digits-pos k n = ground (arith, length-append (digits k (n / 10)) (n % 10 ∷ []))

-- The characters of a number of at most ten digits.
abbrev pub decimal : ℕ → List ℕ
decimal n = chars (digits 10 n)

pub atoi-decimal : (n : ℕ) → n < 2 ^ 32 → atoi (decimal n) ≡ pos n
atoi-decimal n small = elim (List-cases (digits 10 n)) [
  | inl e ↦ absurd (omega (arith, digits-pos 9 n, ap length e))
  | inr (d, ds, e) ↦
      let no_other = subst (λ xs. any is_no_digit xs ≡ false) e (digits-digits 10 n) in
      rw e (atoi-chars d ds no_other)
      ∙ ap pos (ap place_value (sym e) ∙ place_value-digits 10 n (omega arith))
]

chars-text : (ds : List ℕ) → any is_end (chars ds) ≡ false
chars-text [] = refl
chars-text (d ∷ ds) = ground (arith, chars-text ds)

length-chars : (ds : List ℕ) → length (chars ds) ≡ length ds
length-chars [] = refl
length-chars (d ∷ ds) = omega (arith, length-chars ds)

-- A number stands on one line, of one to ten characters.
pub decimal-line :
    (n : ℕ)
    → (any is_end (decimal n) ≡ false) × (length (decimal n) ≤ 10) × (0 < length (decimal n))
decimal-line n = (
  chars-text (digits 10 n),
  omega (arith, length-chars (digits 10 n), length-digits 10 n),
  omega (arith, length-chars (digits 10 n), digits-pos 9 n),
)

pub digits_value-decimal : (n : ℕ) → n < 2 ^ 32 → digits_value 0 (decimal n) ≡ n
digits_value-decimal n small =
    digits_value-chars 0 (digits 10 n) (digits-digits 10 n)
    ∙ omega (arith, place_value-digits 10 n (omega arith))

-- A number below 10 ^ suc j has at most suc j digits.
length-digits-pow : (k j n : ℕ) → n < 10 ^ suc j → length (digits k n) ≤ suc j
unfolding digits
length-digits-pow zero j n below = omega arith
length-digits-pow (suc k) zero n below = ground arith
length-digits-pow (suc k) (suc j) n below =
    let below' : n / 10 < 10 ^ suc j = omega (arith, below, pow-suc 10 (suc j)) in
    ground (
      arith,
      length-digits-pow k j (n / 10) below',
      length-append (digits k (n / 10)) (n % 10 ∷ []),
    )

pub length-decimal : (j n : ℕ) → n < 10 ^ suc j → length (decimal n) ≤ suc j
length-decimal j n below = omega (arith, length-chars (digits 10 n), length-digits-pow 10 j n below)
