-- ===== src/Exer3/Mandel/Colors.antt =====
-- exer3/mandel/mandel-lib.c: the colours of a terminal with 256 colours.
use cslab_os.Base.{
  ℕ, zero, suc, ◌+◌, ◌-◌, ◌*◌, ◌/◌, ◌%◌, ltb, leb, ◌&&◌, List, [], ◌∷◌, if◌then◌else◌,
}
pub mod Palette
pub mod Nearest
pub mod RoundTrip
mod Tests

-- `unsigned char rgb[3]`
pub record Rgb : Type 0 where
  pub red : ℕ
  pub green : ℕ
  pub blue : ℕ

abbrev pub black : Rgb
black = record { red = 0; green = 0; blue = 0 }

-- An array at an index that is in range.
abbrev pub at {ℓ} : {A : Type ℓ} → A → List A → ℕ → A
at a [] i = a
at a (x ∷ xs) zero = x
at a (x ∷ xs) (suc i) = at a xs i

abbrev pub basic16 : List Rgb
basic16 =
    record { red = 0; green = 0; blue = 0 }
    ∷ record { red = 205; green = 0; blue = 0 }
    ∷ record { red = 0; green = 205; blue = 0 }
    ∷ record { red = 205; green = 205; blue = 0 }
    ∷ record { red = 0; green = 0; blue = 238 }
    ∷ record { red = 205; green = 0; blue = 205 }
    ∷ record { red = 0; green = 205; blue = 205 }
    ∷ record { red = 229; green = 229; blue = 229 }
    ∷ record { red = 127; green = 127; blue = 127 }
    ∷ record { red = 255; green = 0; blue = 0 }
    ∷ record { red = 0; green = 255; blue = 0 }
    ∷ record { red = 255; green = 255; blue = 0 }
    ∷ record { red = 92; green = 92; blue = 255 }
    ∷ record { red = 255; green = 0; blue = 255 }
    ∷ record { red = 0; green = 255; blue = 255 }
    ∷ record { red = 255; green = 255; blue = 255 }
    ∷ []

abbrev pub valuerange : List ℕ
valuerange = 0 ∷ 95 ∷ 135 ∷ 175 ∷ 215 ∷ 255 ∷ []

-- The cube, and then the grays, by the colour that is left after `color -= 16`.
unfoldable pub cube : ℕ → Rgb
cube color = record {
  red = at 0 valuerange (color / 36 % 6);
  green = at 0 valuerange (color / 6 % 6);
  blue = at 0 valuerange (color % 6);
}

unfoldable pub gray : ℕ → Rgb → Rgb
gray color rgb =
    let tone = (8 + (color - 232) * 10) % 256 in
    if leb 233 color && leb color 253 then record { red = tone; green = tone; blue = tone } else rgb

-- `xterm2rgb` on the buffer `rgb`, which it leaves as it was for the colours 254 and 255.
unfoldable pub xterm2rgb : ℕ → Rgb → Rgb
xterm2rgb color rgb =
    if ltb color 16
    then at black basic16 color
    else if leb color 232
    then gray (color - 16) (cube (color - 16))
    else gray color rgb

-- `maketable`: the loop over `c` for the next `n` colours, with one buffer for them all.
unfoldable pub fill : ℕ → ℕ → Rgb → List Rgb
fill zero c rgb = []
fill (suc n) c rgb = xterm2rgb c rgb ∷ fill n (c + 1) (xterm2rgb c rgb)

abbrev pub maketable : List Rgb
maketable = fill 254 0 black

-- pow(a - b, 2.0), which is exact
abbrev pub square_of_difference : ℕ → ℕ → ℕ
square_of_difference a b = if leb a b then (b - a) * (b - a) else (a - b) * (a - b)

unfoldable pub distance : Rgb → Rgb → ℕ
distance x rgb =
    square_of_difference x.red rgb.red
    + square_of_difference x.green rgb.green
    + square_of_difference x.blue rgb.blue

-- The loop of `rgb2xterm` over the rest of the table, from colour `c`.
unfoldable pub search_table : Rgb → List Rgb → ℕ → ℕ → ℕ → ℕ
search_table rgb [] c smallest_distance best_match = best_match
search_table rgb (x ∷ table) c smallest_distance best_match =
    let d = distance x rgb in
    let closer = ltb d smallest_distance in
    search_table rgb table (c + 1) (if closer then d else smallest_distance)
      (if closer then c else best_match)

unfoldable pub rgb2xterm : Rgb → ℕ
rgb2xterm rgb = search_table rgb maketable 0 10000000000 0
