-- ===== src/Base/Int.antt =====
-- Signed integers over the native numbers, for the values of C's `int`.
use Prim.Native.Nat.{ℕ, zero, suc, ◌+◌, ◌-◌, ◌*◌, ◌^◌, ◌%◌, ◌<◌}
use mathlib.Core.Path.{◌≡◌, refl}
use mathlib.Core.Bool.{Bool, true, false}
use native.Mathlib.Omega.{arith}
use cslab_os.Base.Tests.{◌==◌, leb, ltb, if◌then◌else◌}

-- `negsuc n` is -(n + 1).
pub data ℤ : Type 0 where
  pos : ℕ → ℤ
  negsuc : ℕ → ℤ

abbrev pub beq : ℤ → ℤ → Bool
beq (pos a) (pos b) = a == b
beq (negsuc a) (negsuc b) = a == b
beq (pos a) (negsuc b) = false
beq (negsuc a) (pos b) = false

pub beq→eq : (a b : ℤ) → beq a b ≡ true → a ≡ b
beq→eq a b h = ground arith

pub beq_refl : (a : ℤ) → beq a a ≡ true
beq_refl a = ground arith

abbrev pub negate : ℕ → ℤ
negate zero = pos 0
negate (suc n) = negsuc n

-- a - b
unfoldable pub sub_nat : ℕ → ℕ → ℤ
sub_nat a b = if leb b a then pos (a - b) else negsuc (b - a - 1)

unfoldable pub ◌+ℤ◌ : ℤ → ℤ → ℤ
pos a +ℤ pos b = pos (a + b)
pos a +ℤ negsuc b = sub_nat a (b + 1)
negsuc a +ℤ pos b = sub_nat b (a + 1)
negsuc a +ℤ negsuc b = negsuc (a + b + 1)

infixl 50 ◌+ℤ◌
unfoldable pub ◌*ℤ◌ : ℤ → ℤ → ℤ
pos a *ℤ pos b = pos (a * b)
pos a *ℤ negsuc b = negate (a * (b + 1))
negsuc a *ℤ pos b = negate ((a + 1) * b)
negsuc a *ℤ negsuc b = pos ((a + 1) * (b + 1))

infixl 60 ◌*ℤ◌
-- Whether an `int` of 32 bits holds it.
unfoldable pub is_int : ℤ → Bool
is_int (pos n) = ltb n (2 ^ 31)
is_int (negsuc n) = ltb n (2 ^ 31)

-- The `int` of 32 bits with the bits of `r`, which is below 2 ^ 32.
unfoldable pub wrap : ℕ → ℤ
wrap r = if ltb r (2 ^ 31) then pos r else negsuc (2 ^ 32 - 1 - r)

-- A number as an `int` of 32 bits, modulo 2 ^ 32.
unfoldable pub to_int : ℤ → ℤ
to_int (pos n) = wrap (n % 2 ^ 32)
to_int (negsuc n) = wrap (2 ^ 32 - 1 - n % 2 ^ 32)

abbrev pub greater : ℤ → ℤ → Bool
greater (pos a) (pos b) = ltb b a
greater (pos a) (negsuc b) = true
greater (negsuc a) (pos b) = false
greater (negsuc a) (negsuc b) = ltb a b

pub to_int_small : (n : ℕ) → n < 2 ^ 31 → to_int (pos n) ≡ pos n
unfolding to_int wrap
to_int_small n small =
    let below : n % 2 ^ 32 ≡ n = omega (arith, small) in
    let fits : ltb n (2 ^ 31) ≡ true = ground arith in rw (below, fits) refl

pub to_int-is_int : (z : ℤ) → is_int z ≡ true → to_int z ≡ z
unfolding to_int wrap is_int
to_int-is_int (pos n) fits =
    let below : n % 2 ^ 32 ≡ n = ground (arith, fits) in rw (below, fits) refl
to_int-is_int (negsuc n) fits =
    let small : n < 2 ^ 31 = ground (arith, fits) in
    let below : n % 2 ^ 32 ≡ n = omega (arith, small) in
    let big : ltb (2 ^ 32 - 1 - n) (2 ^ 31) ≡ false = ground (arith, small) in
    let back : 2 ^ 32 - 1 - (2 ^ 32 - 1 - n) ≡ n = omega (arith, small) in
    rw (below, big, back) refl
