-- ===== src/Exer3/Mandel/Output/Tests.antt =====
-- A terminal that takes two bytes at a time, where there are so many.
use cslab_os.Base.{refl, arith, some, [], ◌∷◌, ltb, if◌then◌else◌}
use cslab_os.Exer1.Fconc.Defs.{World}
use cslab_os.Exer3.Mandel.Output.{Write, output_mandel_line}
use cslab_os.Exer3.Mandel.Output.Whole.{Moves, Wrote, line_text, output_mandel_line-Wrote}

abbrev at_most_two : Write
at_most_two calls count = some (if ltb 2 count then 2 else count)

at_most_two-Moves : Moves at_most_two
at_most_two-Moves calls count some_byte =
    (if ltb 2 count then 2 else count, refl, ground (arith, some_byte), ground (arith, some_byte))

abbrev new_world : World
new_world = record { calls = 0; out = [] }

output_mandel_line-Wrote_example :
    Wrote
      (output_mandel_line at_most_two (18 ∷ 255 ∷ []) new_world)
      tt
      (line_text (18 ∷ 255 ∷ []))
      new_world
output_mandel_line-Wrote_example =
    output_mandel_line-Wrote at_most_two at_most_two-Moves (18 ∷ 255 ∷ []) new_world
