-- ===== src/Exer3/Mandel/Colors/Tests.antt =====
-- A dark blue, and the colour 232, which `xterm2rgb` takes for black.
use cslab_os.Base.{◌≡◌, refl, arith}
use cslab_os.Exer3.Mandel.Colors.{
  Rgb, black, xterm2rgb, rgb2xterm, search_table, fill, distance, gray, cube,
}
use cslab_os.Exer3.Mandel.Colors.Palette.{palette_color, xterm_color}
use cslab_os.Exer3.Mandel.Colors.Nearest.{IsNearest, rgb2xterm-IsNearest, xterm_color-IsNearest}
use cslab_os.Exer3.Mandel.Colors.RoundTrip.{xterm2rgb-rgb2xterm}

abbrev dark_blue : Rgb
dark_blue = record { red = 0; green = 0; blue = 140 }

rgb2xterm-dark_blue : rgb2xterm dark_blue ≡ 18
unfolding rgb2xterm search_table fill distance xterm2rgb gray cube
rgb2xterm-dark_blue = refl

xterm2rgb-232 : xterm2rgb 232 dark_blue ≡ black
unfolding xterm2rgb gray cube
xterm2rgb-232 = refl

rgb2xterm-IsNearest_example : IsNearest dark_blue (rgb2xterm dark_blue)
rgb2xterm-IsNearest_example =
    rgb2xterm-IsNearest dark_blue
      (record { red_byte = omega arith; green_byte = omega arith; blue_byte = omega arith })

xterm_color-IsNearest_example : IsNearest (palette_color 300) (xterm_color 300)
xterm_color-IsNearest_example = xterm_color-IsNearest 300

xterm2rgb-rgb2xterm_example :
    xterm2rgb (rgb2xterm (xterm2rgb 240 dark_blue)) black ≡ xterm2rgb 240 dark_blue
xterm2rgb-rgb2xterm_example = xterm2rgb-rgb2xterm 240 dark_blue black (omega arith)
