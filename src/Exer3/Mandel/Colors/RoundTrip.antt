-- ===== src/Exer3/Mandel/Colors/RoundTrip.antt =====
-- The colours of the table are found again.
use native.Mathlib.Nat.{le-mul_of_pos_right}
use cslab_os.Base.{
  ℕ, zero, suc, ◌+◌, ◌-◌, ◌*◌, ◌/◌, ◌%◌, ◌<◌, ◌≡◌, refl, ◌∙◌, ltb, leb, ◌&&◌, List, [], ◌∷◌,
  if◌then◌else◌, arith, Bool, true, false,
}
use cslab_os.Exer3.Mandel.Colors.{
  Rgb, black, at, basic16, valuerange, cube, gray, xterm2rgb, square_of_difference, distance,
  rgb2xterm,
}
use cslab_os.Exer3.Mandel.Colors.Nearest.{color, xterm2rgb-color, IsRgb, rgb2xterm-IsNearest}

valuerange-byte : (i : ℕ) → i < 6 → at 0 valuerange i < 256
valuerange-byte i small = ground (arith, small)

abbrev is_rgb : Rgb → Bool
is_rgb x = ltb x.red 256 && (ltb x.green 256 && ltb x.blue 256)

is_rgb-IsRgb : (x : Rgb) → is_rgb x ≡ true → IsRgb x
is_rgb-IsRgb x e = record {
  red_byte = ground (arith, e);
  green_byte = ground (arith, e);
  blue_byte = ground (arith, e);
}

abbrev all : (Rgb → Bool) → List Rgb → Bool
all p [] = true
all p (x ∷ xs) = p x && all p xs

and_true : (a b : Bool) → (a && b) ≡ true → (a ≡ true) × (b ≡ true)
and_true a b e = ground (arith, e)

at-is_rgb : (xs : List Rgb) (i : ℕ) → all is_rgb xs ≡ true → is_rgb (at black xs i) ≡ true
at-is_rgb [] i e = refl
at-is_rgb (x ∷ xs) zero e = (and_true (is_rgb x) (all is_rgb xs) e).0
at-is_rgb (x ∷ xs) (suc i) e = at-is_rgb xs i (and_true (is_rgb x) (all is_rgb xs) e).1

basic16-IsRgb : (i : ℕ) → IsRgb (at black basic16 i)
basic16-IsRgb i = is_rgb-IsRgb (at black basic16 i) (at-is_rgb basic16 i refl)

if-IsRgb : (b : Bool) {x y : Rgb} → IsRgb x → IsRgb y → IsRgb (if b then x else y)
if-IsRgb true px py = px
if-IsRgb false px py = py

gray-IsRgb : (c : ℕ) (rgb : Rgb) → IsRgb rgb → IsRgb (gray c rgb)
unfolding gray
gray-IsRgb c rgb before =
    let tone : (8 + (c - 232) * 10) % 256 < 256 = omega arith in
    if-IsRgb (leb 233 c && leb c 253)
      (record { red_byte = tone; green_byte = tone; blue_byte = tone }) before

cube-IsRgb : (i : ℕ) → IsRgb (cube i)
unfolding cube
cube-IsRgb i = record {
  red_byte = valuerange-byte (i / 36 % 6) (omega arith);
  green_byte = valuerange-byte (i / 6 % 6) (omega arith);
  blue_byte = valuerange-byte (i % 6) (omega arith);
}

color-IsRgb : (c : ℕ) → IsRgb (color c)
unfolding xterm2rgb
color-IsRgb c = if-IsRgb (ltb c 16) (basic16-IsRgb c) (
    if-IsRgb (leb c 232) (gray-IsRgb (c - 16) (cube (c - 16)) (cube-IsRgb (c - 16)))
      (gray-IsRgb c black (is_rgb-IsRgb black refl)))

square-zero : (n : ℕ) → n * n ≡ 0 → n ≡ 0
square-zero zero e = refl
square-zero (suc n) e =
    absurd (omega (arith, e, le-mul_of_pos_right {m = suc n} (suc n) (omega arith)))

square_of_difference-zero : (a b : ℕ) → square_of_difference a b ≡ 0 → a ≡ b
square_of_difference-zero a b e = ground (arith, e, square-zero (b - a), square-zero (a - b))

square_of_difference_self : (a : ℕ) → square_of_difference a a ≡ 0
square_of_difference_self a = ground arith

Rgb-eq : (x y : Rgb) → x.red ≡ y.red → x.green ≡ y.green → x.blue ≡ y.blue → x ≡ y
Rgb-eq x y r g b = cc

distance-zero : (x y : Rgb) → distance x y ≡ 0 → x ≡ y
unfolding distance
distance-zero x y e =
    Rgb-eq x y (square_of_difference-zero x.red y.red (omega (arith, e)))
      (square_of_difference-zero x.green y.green (omega (arith, e)))
      (square_of_difference-zero x.blue y.blue (omega (arith, e)))

distance_self : (x : Rgb) → distance x x ≡ 0
unfolding distance
distance_self x = omega (
  arith,
  square_of_difference_self x.red,
  square_of_difference_self x.green,
  square_of_difference_self x.blue,
)

-- For the colours 0 to 253: the colour that is chosen for the red, green and blue of a colour has the
-- same red, green and blue, whatever was in the buffers.
pub xterm2rgb-rgb2xterm :
    (c : ℕ) (before after : Rgb)
    → c < 254
    → xterm2rgb (rgb2xterm (xterm2rgb c before)) after ≡ xterm2rgb c before
xterm2rgb-rgb2xterm c before after small = rw (xterm2rgb-color c before small) (
    let found = rgb2xterm-IsNearest (color c) (color-IsRgb c) in
    xterm2rgb-color (rgb2xterm (color c)) after found.in_table
    ∙ distance-zero (color (rgb2xterm (color c))) (color c)
        (omega (arith, found.nearest c small, distance_self (color c))))
