-- ===== src/Exer3/Mandel/Colors/Palette.antt =====
-- exer3/mandel/mandel-lib.c: the palette, and the colour of the terminal for a number of iterations.
use cslab_os.Base.{ℕ, ◌*◌, ◌/◌, ◌%◌, ltb, List, [], ◌∷◌, ◌++◌, if◌then◌else◌}
use cslab_os.Exer3.Mandel.Colors.{Rgb, at, rgb2xterm}

-- The red, green and blue of `mandel256`, in thousandths.
abbrev mandel256_first : List (ℕ × ℕ × ℕ)
mandel256_first =
    (0, 0, 734)
    ∷ (0, 300, 734)
    ∷ (0, 734, 0)
    ∷ (734, 734, 0)
    ∷ (734, 0, 0)
    ∷ (734, 0, 734)
    ∷ (0, 734, 734)
    ∷ (750, 750, 750)
    ∷ (750, 859, 750)
    ∷ (641, 781, 938)
    ∷ (500, 0, 0)
    ∷ (0, 500, 0)
    ∷ (500, 500, 0)
    ∷ (0, 0, 500)
    ∷ (500, 0, 500)
    ∷ (0, 500, 500)
    ∷ (234, 359, 234)
    ∷ (359, 359, 234)
    ∷ (484, 359, 234)
    ∷ (609, 359, 234)
    ∷ (734, 359, 234)
    ∷ (859, 359, 234)
    ∷ (984, 359, 234)
    ∷ (234, 484, 234)
    ∷ (359, 484, 234)
    ∷ (484, 484, 234)
    ∷ (609, 484, 234)
    ∷ (734, 484, 234)
    ∷ (859, 484, 234)
    ∷ (984, 484, 234)
    ∷ (234, 609, 234)
    ∷ (359, 609, 234)
    ∷ (484, 609, 234)
    ∷ (609, 609, 234)
    ∷ (734, 609, 234)
    ∷ (859, 609, 234)
    ∷ (984, 609, 234)
    ∷ (234, 734, 234)
    ∷ (359, 734, 234)
    ∷ (484, 734, 234)
    ∷ (609, 734, 234)
    ∷ (734, 734, 234)
    ∷ (859, 734, 234)
    ∷ (984, 734, 234)
    ∷ (234, 859, 234)
    ∷ (359, 859, 234)
    ∷ (484, 859, 234)
    ∷ (609, 859, 234)
    ∷ (734, 859, 234)
    ∷ (859, 859, 234)
    ∷ (984, 859, 234)
    ∷ (234, 984, 234)
    ∷ (359, 984, 234)
    ∷ (484, 984, 234)
    ∷ (609, 984, 234)
    ∷ (734, 984, 234)
    ∷ (859, 984, 234)
    ∷ (984, 984, 234)
    ∷ (234, 234, 359)
    ∷ (359, 234, 359)
    ∷ (484, 234, 359)
    ∷ (609, 234, 359)
    ∷ (734, 234, 359)
    ∷ (859, 234, 359)
    ∷ (984, 234, 359)
    ∷ (234, 359, 359)
    ∷ (359, 359, 359)
    ∷ (484, 359, 359)
    ∷ (609, 359, 359)
    ∷ (734, 359, 359)
    ∷ (859, 359, 359)
    ∷ (984, 359, 359)
    ∷ (234, 484, 359)
    ∷ (359, 484, 359)
    ∷ (484, 484, 359)
    ∷ (609, 484, 359)
    ∷ (734, 484, 359)
    ∷ (859, 484, 359)
    ∷ (984, 484, 359)
    ∷ (234, 609, 359)
    ∷ (359, 609, 359)
    ∷ (484, 609, 359)
    ∷ (609, 609, 359)
    ∷ (734, 609, 359)
    ∷ (859, 609, 359)
    ∷ (984, 609, 359)
    ∷ (234, 734, 359)
    ∷ (359, 734, 359)
    ∷ (484, 734, 359)
    ∷ (609, 734, 359)
    ∷ (734, 734, 359)
    ∷ (859, 734, 359)
    ∷ (984, 734, 359)
    ∷ (234, 859, 359)
    ∷ (359, 859, 359)
    ∷ (484, 859, 359)
    ∷ (609, 859, 359)
    ∷ (734, 859, 359)
    ∷ (859, 859, 359)
    ∷ (984, 859, 359)
    ∷ (234, 984, 359)
    ∷ (359, 984, 359)
    ∷ (484, 984, 359)
    ∷ (609, 984, 359)
    ∷ (734, 984, 359)
    ∷ (859, 984, 359)
    ∷ (984, 984, 359)
    ∷ (234, 234, 484)
    ∷ (359, 234, 484)
    ∷ (484, 234, 484)
    ∷ (609, 234, 484)
    ∷ (734, 234, 484)
    ∷ (859, 234, 484)
    ∷ (984, 234, 484)
    ∷ (234, 359, 484)
    ∷ (359, 359, 484)
    ∷ (484, 359, 484)
    ∷ (609, 359, 484)
    ∷ (734, 359, 484)
    ∷ (859, 359, 484)
    ∷ (984, 359, 484)
    ∷ (234, 484, 484)
    ∷ (359, 484, 484)
    ∷ (484, 484, 484)
    ∷ (609, 484, 484)
    ∷ (734, 484, 484)
    ∷ (859, 484, 484)
    ∷ (984, 484, 484)
    ∷ []

abbrev mandel256_second : List (ℕ × ℕ × ℕ)
mandel256_second =
    (234, 609, 484)
    ∷ (359, 609, 484)
    ∷ (484, 609, 484)
    ∷ (609, 609, 484)
    ∷ (734, 609, 484)
    ∷ (859, 609, 484)
    ∷ (984, 609, 484)
    ∷ (234, 734, 484)
    ∷ (359, 734, 484)
    ∷ (484, 734, 484)
    ∷ (609, 734, 484)
    ∷ (734, 734, 484)
    ∷ (859, 734, 484)
    ∷ (984, 734, 484)
    ∷ (234, 859, 484)
    ∷ (359, 859, 484)
    ∷ (484, 859, 484)
    ∷ (609, 859, 484)
    ∷ (734, 859, 484)
    ∷ (859, 859, 484)
    ∷ (984, 859, 484)
    ∷ (234, 984, 484)
    ∷ (359, 984, 484)
    ∷ (484, 984, 484)
    ∷ (609, 984, 484)
    ∷ (734, 984, 484)
    ∷ (859, 984, 484)
    ∷ (984, 984, 484)
    ∷ (234, 234, 609)
    ∷ (359, 234, 609)
    ∷ (484, 234, 609)
    ∷ (609, 234, 609)
    ∷ (734, 234, 609)
    ∷ (859, 234, 609)
    ∷ (984, 234, 609)
    ∷ (234, 359, 609)
    ∷ (359, 359, 609)
    ∷ (484, 359, 609)
    ∷ (609, 359, 609)
    ∷ (734, 359, 609)
    ∷ (859, 359, 609)
    ∷ (984, 359, 609)
    ∷ (234, 484, 609)
    ∷ (359, 484, 609)
    ∷ (484, 484, 609)
    ∷ (609, 484, 609)
    ∷ (734, 484, 609)
    ∷ (859, 484, 609)
    ∷ (984, 484, 609)
    ∷ (234, 609, 609)
    ∷ (359, 609, 609)
    ∷ (484, 609, 609)
    ∷ (609, 609, 609)
    ∷ (734, 609, 609)
    ∷ (859, 609, 609)
    ∷ (984, 609, 609)
    ∷ (234, 734, 609)
    ∷ (359, 734, 609)
    ∷ (484, 734, 609)
    ∷ (609, 734, 609)
    ∷ (734, 734, 609)
    ∷ (859, 734, 609)
    ∷ (984, 734, 609)
    ∷ (234, 859, 609)
    ∷ (359, 859, 609)
    ∷ (484, 859, 609)
    ∷ (609, 859, 609)
    ∷ (734, 859, 609)
    ∷ (859, 859, 609)
    ∷ (984, 859, 609)
    ∷ (234, 984, 609)
    ∷ (359, 984, 609)
    ∷ (484, 984, 609)
    ∷ (609, 984, 609)
    ∷ (734, 984, 609)
    ∷ (859, 984, 609)
    ∷ (984, 984, 609)
    ∷ (234, 234, 734)
    ∷ (359, 234, 734)
    ∷ (484, 234, 734)
    ∷ (609, 234, 734)
    ∷ (734, 234, 734)
    ∷ (859, 234, 734)
    ∷ (984, 234, 734)
    ∷ (234, 359, 734)
    ∷ (359, 359, 734)
    ∷ (484, 359, 734)
    ∷ (609, 359, 734)
    ∷ (734, 359, 734)
    ∷ (859, 359, 734)
    ∷ (984, 359, 734)
    ∷ (234, 484, 734)
    ∷ (359, 484, 734)
    ∷ (484, 484, 734)
    ∷ (609, 484, 734)
    ∷ (734, 484, 734)
    ∷ (859, 484, 734)
    ∷ (984, 484, 734)
    ∷ (234, 609, 734)
    ∷ (359, 609, 734)
    ∷ (484, 609, 734)
    ∷ (609, 609, 734)
    ∷ (734, 609, 734)
    ∷ (859, 609, 734)
    ∷ (984, 609, 734)
    ∷ (234, 734, 734)
    ∷ (359, 734, 734)
    ∷ (484, 734, 734)
    ∷ (609, 734, 734)
    ∷ (734, 734, 734)
    ∷ (859, 734, 734)
    ∷ (984, 734, 734)
    ∷ (234, 859, 734)
    ∷ (359, 859, 734)
    ∷ (484, 859, 734)
    ∷ (609, 859, 734)
    ∷ (734, 859, 734)
    ∷ (859, 859, 734)
    ∷ (984, 969, 938)
    ∷ (625, 625, 641)
    ∷ (500, 500, 500)
    ∷ (984, 0, 0)
    ∷ (0, 984, 0)
    ∷ (984, 984, 0)
    ∷ (0, 0, 984)
    ∷ (984, 0, 984)
    ∷ (0, 984, 984)
    ∷ (0, 0, 0)
    ∷ []

unfoldable pub mandel256 : List (ℕ × ℕ × ℕ)
mandel256 = mandel256_first ++ mandel256_second

-- `255.0 * x` as an `unsigned char`, for `x` in thousandths.
abbrev pub channel : ℕ → ℕ
channel thousandths = 255 * thousandths / 1000 % 256

abbrev pub scaled : ℕ × ℕ × ℕ → Rgb
scaled (r, g, b) = record { red = channel r; green = channel g; blue = channel b }

-- The colour of the palette that `xterm_color` wants.
unfoldable pub palette_color : ℕ → Rgb
palette_color color_val =
    scaled (at (0, 0, 0) mandel256 (if ltb 255 color_val then 255 else color_val))

unfoldable pub xterm_color : ℕ → ℕ
xterm_color color_val = rgb2xterm (palette_color color_val)
