-- ===== src/Exer1/Zing/Greets.antt =====
-- The greeting is written whole, from a buffer that is too small for it.
use cslab_os.Base.{
  ℕ, zero, suc, ◌+◌, ◌<◌, ◌≤◌, ◌≡◌, ap, sym, ◌∙◌, ltb, Bool, true, false, none, some, List, [], ◌∷◌,
  ◌++◌, length, take, drop, length-append, append_assoc, append-nil, arith, Bool-cases, inl, inr,
}
use cslab_os.Exer1.Fconc.Defs.{Sys, World, done}
use cslab_os.Exer1.Fconc.Copies.{Cooperates, take-drop, drop-drop, length-drop, drop-all}
use cslab_os.Exer1.Zing.{overrun, greet, error_text, message, write_loop, zing}

-- What one `write` moves, and what is left.
pieces :
    (out text : List ℕ) (idx n : ℕ)
    → (out ++ take n (drop idx text)) ++ drop (idx + n) text ≡ out ++ drop idx text
pieces out text idx n =
    append_assoc out (take n (drop idx text)) (drop (idx + n) text)
    ∙ ap (λ ys. out ++ ys) (rw (drop-drop idx n text) (take-drop n (drop idx text)))

last_piece :
    (out text : List ℕ) (idx n : ℕ)
    → length text ≤ idx + n
    → out ++ take n (drop idx text) ≡ out ++ drop idx text
last_piece out text idx n all =
    sym (append-nil (out ++ take n (drop idx text)))
    ∙ ap (λ ys. (out ++ take n (drop idx text)) ++ ys) (sym (drop-all (idx + n) text all))
    ∙ pieces out text idx n

module _ (sys : Sys) (writes : Cooperates sys.write) where
  write_loop-all :
      (fuel idx : ℕ) (text : List ℕ) (w : World)
      → idx < length text
      → length text ≤ idx + fuel
      → (c : ℕ) × (write_loop sys fuel idx text w
          ≡ done tt (record { calls = c; out = w.out ++ drop idx text }))
  unfolding write_loop
  write_loop-all zero idx text w more enough = absurd (omega (arith, more, enough))
  write_loop-all (suc fuel) idx text w more enough =
      let left : 0 < length (drop idx text) = omega (arith, length-drop idx text, more) in
      let (k, e, part) = writes.something w.calls (length (drop idx text)) left in
      elim (Bool-cases (ltb (idx + suc k) (length text))) [
        | inl again ↦
            let w' : World = record {
              calls = w.calls + 1;
              out = w.out ++ take (suc k) (drop idx text);
            } in
            let (c, r) =
              write_loop-all fuel (idx + suc k) text w' (ground (arith, again))
                (omega (arith, enough)) in
            (
              c,
              rw (e, write_loop, again)
                  (r
                    ∙ ap (λ out. done tt (record { calls = c; out = out }))
                        (pieces w.out text idx (suc k))),
            )
        | inr last ↦ (
          w.calls + 1,
          rw (e, write_loop, last)
              (ap (λ out. done tt (record { calls = w.calls + 1; out = out }))
                (last_piece w.out text idx (suc k) (ground (arith, last)))),
        )
      ]

-- With fuel for each character: when `getlogin` gives a user and `malloc` a buffer, and each `write`
-- moves at least a byte, "Bye-Bye ", the user and a newline are written to descriptor 1, and the string
-- takes one byte more than was asked for. When one of the two fails, the error text is written to
-- descriptor 2.
pub zing-greets :
    (sys : Sys) (memory : Bool) (fuel : ℕ) (user : List ℕ)
    → Cooperates sys.write
    → length user + 14 ≤ fuel
    → ((c : ℕ) × (zing sys true fuel (some user)
          ≡ (1, done tt (record { calls = c; out = (greet ++ user) ++ 10 ∷ [] }))))
      × (overrun (message user) ≡ 1)
      × ((c : ℕ) × (zing sys false fuel (some user)
            ≡ (2, done tt (record { calls = c; out = error_text }))))
      × ((c : ℕ) × (zing sys memory fuel none
            ≡ (2, done tt (record { calls = c; out = error_text }))))
unfolding zing message overrun
zing-greets sys memory fuel user writes enough =
    let long : length ((greet ++ user) ++ 10 ∷ []) ≡ length user + 9 =
      omega (arith, length-append (greet ++ user) (10 ∷ []), length-append greet user) in
    let (c, greeted) =
      write_loop-all sys writes fuel 0 ((greet ++ user) ++ 10 ∷ []) (record { calls = 0; out = [] })
        (omega (arith, long)) (omega (arith, long, enough)) in
    let (c', failed) =
      write_loop-all sys writes fuel 0 error_text (record { calls = 0; out = [] }) (omega arith)
        (omega (arith, enough)) in
    (
      (c, ap (λ o. (1, o)) greeted),
      omega (arith, long),
      (c', ap (λ o. (2, o)) failed),
      (c', ap (λ o. (2, o)) failed),
    )
