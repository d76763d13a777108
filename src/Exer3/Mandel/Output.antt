-- ===== src/Exer3/Mandel/Output.antt =====
-- exer3/mandel/mandel-lib.c and mandel.c: the output of one line. `write` moves as many bytes as the
-- system chooses, and the number of iterations at a point is a parameter.
use cslab_os.Base.{
  ℕ, zero, suc, ◌+◌, ◌==◌, ltb, Option, none, some, Bool, true, false, List, [], ◌∷◌, ◌++◌,
  if◌then◌else◌, length, take, drop, map,
}
use cslab_os.Text.Decimal.{decimal}
use cslab_os.Exer1.Fconc.Defs.{World, Outcome, done, died, out_of_fuel}
use cslab_os.Exer3.Mandel.Colors.Palette.{xterm_color}
pub mod Whole
mod Tests

-- The answer of `write` to so many bytes, by the number of calls before; `none` is -1.
abbrev pub Write : Type 0
Write = ℕ → ℕ → Option ℕ

-- Whether it returns the count, and not -1.
unfoldable pub insist_write : Write → ℕ → List ℕ → World → Outcome Bool
insist_write write fuel [] w = done true w
insist_write write zero (c ∷ buf) w = out_of_fuel
insist_write write (suc fuel) (c ∷ buf) w = elim (write w.calls (length (c ∷ buf))) [
  | none ↦ done false (record w { calls = w.calls + 1 })
  | some ret ↦
      insist_write write fuel (drop ret (c ∷ buf))
        (record { calls = w.calls + 1; out = w.out ++ take ret (c ∷ buf) })
]

-- "\033[38;5;%dm", which the buffer of 100 bytes cuts.
abbrev pub color_sequence : ℕ → List ℕ
color_sequence color = take 99 (27 ∷ 91 ∷ 51 ∷ 56 ∷ 59 ∷ 53 ∷ 59 ∷ (decimal color ++ 109 ∷ []))

abbrev pub or_die : Outcome Bool → Outcome (Unit {0})
or_die (done true w) = done tt w
or_die (done false w) = died w
or_die (died w) = died w
or_die out_of_fuel = out_of_fuel

abbrev pub and_then : Outcome (Unit {0}) → (World → Outcome (Unit {0})) → Outcome (Unit {0})
and_then (done u w) k = k w
and_then (died w) k = died w
and_then out_of_fuel k = out_of_fuel

unfoldable pub set_xterm_color : Write → ℕ → World → Outcome (Unit {0})
set_xterm_color write color w =
    or_die (insist_write write (length (color_sequence color)) (color_sequence color) w)

-- "\033[0m"
unfoldable pub reset_xterm_color : Write → World → Outcome (Unit {0})
reset_xterm_color write w = or_die (insist_write write 4 (27 ∷ 91 ∷ 48 ∷ 109 ∷ []) w)

-- `write(fd, &c, 1)`, which ends the program unless it moves the one byte.
unfoldable pub write_char : Write → ℕ → World → Outcome (Unit {0})
write_char write c w = elim (write w.calls 1) [
  | none ↦ died w
  | some ret ↦
      if ret == 1 then done tt (record { calls = w.calls + 1; out = w.out ++ c ∷ [] }) else died w
]

-- The points and the newline.
unfoldable pub output_mandel_line : Write → List ℕ → World → Outcome (Unit {0})
output_mandel_line write [] w = write_char write 10 w
output_mandel_line write (color ∷ color_val) w =
    and_then (set_xterm_color write color w)
      λ w'. and_then (write_char write 64 w') (output_mandel_line write color_val)

-- The values of `n` for the next `count` points.
abbrev pub points : ℕ → ℕ → List ℕ
points zero n = []
points (suc count) n = n ∷ points count (n + 1)

abbrev pub x_chars : ℕ
x_chars = 90

-- `iterations` is `mandel_iterations_at_point` at the point of a line and a column.
unfoldable pub compute_mandel_line : (ℕ → ℕ → ℕ) → ℕ → List ℕ
compute_mandel_line iterations line =
    map (λ n. xterm_color (if ltb 255 (iterations line n) then 255 else iterations line n))
      (points x_chars 0)

unfoldable pub compute_and_output_mandel_line : Write → (ℕ → ℕ → ℕ) → ℕ → World → Outcome (Unit {0})
compute_and_output_mandel_line write iterations line =
    output_mandel_line write (compute_mandel_line iterations line)
