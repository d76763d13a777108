-- ===== src/Exer3/Mandel/Output/Whole.antt =====
-- The output of a line is whole, however the writes are cut.
use cslab_os.Base.{
  ℕ, zero, suc, ◌+◌, ◌-◌, ◌≡◌, ◌≤◌, ◌<◌, refl, ap, sym, ◌∙◌, some, true, List, [], ◌∷◌, ◌++◌,
  length, take, drop, arith, append-nil, append_assoc, ◌==◌, eq→==,
}
use cslab_os.Exer1.Fconc.Defs.{World, Outcome, done}
use cslab_os.Exer3.Mandel.Output.{
  Write, insist_write, color_sequence, or_die, and_then, set_xterm_color, write_char,
  output_mandel_line,
}

-- What `write` does on a terminal: it moves at least one byte and at most all of them.
abbrev pub Moves : Write → Type 0
Moves write =
    (calls count : ℕ) → 0 < count → (n : ℕ) × (write calls count ≡ some n) × (0 < n) × (n ≤ count)

-- A call that ends well and has written `text`.
abbrev pub Wrote : {A : Type 0} → Outcome A → A → List ℕ → World → Type 0
Wrote r a text w = (w' : World) × (r ≡ done a w') × (w'.out ≡ w.out ++ text)

take-drop : (n : ℕ) (xs : List ℕ) → take n xs ++ drop n xs ≡ xs
take-drop zero xs = refl
take-drop (suc n) [] = refl
take-drop (suc n) (x ∷ xs) = ap (λ ys. x ∷ ys) (take-drop n xs)

length-drop : (n : ℕ) (xs : List ℕ) → length (drop n xs) ≡ length xs - n
length-drop zero xs = omega arith
length-drop (suc n) [] = omega arith
length-drop (suc n) (x ∷ xs) = length-drop n xs ∙ omega arith

-- The text of a line.
unfoldable pub line_text : List ℕ → List ℕ
line_text [] = 10 ∷ []
line_text (color ∷ colors) = color_sequence color ++ 64 ∷ line_text colors

insist_write-some :
    (write : Write) (fuel c : ℕ) (buf : List ℕ) (w : World) (n : ℕ)
    → write w.calls (length (c ∷ buf)) ≡ some n
    → insist_write write (suc fuel) (c ∷ buf) w
      ≡ insist_write write fuel
          (drop n (c ∷ buf))
          (record { calls = w.calls + 1; out = w.out ++ take n (c ∷ buf) })
unfolding insist_write
insist_write-some write fuel c buf w n answer = rw (answer, insist_write) refl

module _ (write : Write) (moves : Moves write) where
  insist_write-Wrote :
      (fuel : ℕ) (buf : List ℕ) (w : World)
      → length buf ≤ fuel
      → Wrote (insist_write write fuel buf w) true buf w
  unfolding insist_write
  insist_write-Wrote fuel [] w enough = (w, refl, sym (append-nil w.out))
  insist_write-Wrote zero (c ∷ buf) w enough = absurd (omega arith)
  insist_write-Wrote (suc fuel) (c ∷ buf) w enough =
      let (n, answer, some_byte, within) = moves w.calls (length (c ∷ buf)) (omega arith) in
      let w1 : World = record { calls = w.calls + 1; out = w.out ++ take n (c ∷ buf) } in
      let (w', result, text) =
        insist_write-Wrote fuel (drop n (c ∷ buf)) w1
          (omega (arith, length-drop n (c ∷ buf), some_byte, enough)) in
      (
        w',
        insist_write-some write fuel c buf w n answer ∙ result,
        text
            ∙ append_assoc w.out (take n (c ∷ buf)) (drop n (c ∷ buf))
            ∙ ap (λ t. w.out ++ t) (take-drop n (c ∷ buf)),
      )

  set_xterm_color-Wrote :
      (color : ℕ) (w : World) → Wrote (set_xterm_color write color w) tt (color_sequence color) w
  unfolding set_xterm_color
  set_xterm_color-Wrote color w =
      let (w', result, text) =
        insist_write-Wrote (length (color_sequence color)) (color_sequence color) w (omega arith) in
      (w', ap or_die result, text)

  write_char-Wrote : (c : ℕ) (w : World) → Wrote (write_char write c w) tt (c ∷ []) w
  unfolding write_char
  write_char-Wrote c w =
      let (n, answer, some_byte, within) = moves w.calls 1 (omega arith) in
      let one : (n == 1) ≡ true = eq→== n 1 (omega (arith, some_byte, within)) in
      (
        record { calls = w.calls + 1; out = w.out ++ c ∷ [] },
        rw (answer, write_char, one) refl,
        refl,
      )

  and_then-Wrote :
      {r : Outcome (Unit {0})} {k : World → Outcome (Unit {0})} (s t : List ℕ) (w : World)
      → Wrote r tt s w
      → ((w' : World) → Wrote (k w') tt t w')
      → Wrote (and_then r k) tt (s ++ t) w
  and_then-Wrote {r} {k} s t w (w1, result, text) rest =
      let (w2, result2, text2) = rest w1 in
      (
        w2,
        ap (λ o. and_then o k) result ∙ result2,
        text2 ∙ ap (λ o. o ++ t) text ∙ append_assoc w.out s t,
      )

  -- Where every `write` moves at least one byte: a line is written whole, and returns, however the
  -- writes of its colours are cut: for each point the sequence of its colour and `@`, and then a newline.
  pub output_mandel_line-Wrote :
      (colors : List ℕ) (w : World)
      → Wrote (output_mandel_line write colors w) tt (line_text colors) w
  unfolding output_mandel_line line_text
  output_mandel_line-Wrote [] w = write_char-Wrote 10 w
  output_mandel_line-Wrote (color ∷ colors) w =
      and_then-Wrote (color_sequence color) (64 ∷ line_text colors) w
        (set_xterm_color-Wrote color w)
        λ w'.
          and_then-Wrote (64 ∷ []) (line_text colors) w' (write_char-Wrote 64 w')
            (output_mandel_line-Wrote colors)
