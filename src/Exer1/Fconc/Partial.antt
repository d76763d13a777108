-- ===== src/Exer1/Fconc/Partial.antt =====
-- Whatever the system answers, a copy that returns is complete.
use Prim.Native.Nat.add
use cslab_os.Base.{
  ℕ, zero, suc, ◌+◌, ◌-◌, ◌≤◌, ◌<◌, ◌≡◌, refl, sym, ap, Option, some, List, [], ◌∷◌, ◌++◌, arith,
  length, take, drop, append-nil, append_assoc, Bool-cases, Option-cases, inl, inr, ◌==◌, subst,
}
use cslab_os.Exer1.Fconc.Defs.{
  Sys, World, Outcome, done, died, do_write, at_hand, then_copy, cat_contents,
}
use cslab_os.Exer1.Fconc.Copies.{length-drop, drop-drop, take-drop}

-- No call moves more than what there is.
abbrev pub IsBounded : (ℕ → ℕ → Option ℕ) → Type 0
IsBounded answer = (c n k : ℕ) → answer c n ≡ some k → k ≤ n

take_add : (n m : ℕ) (xs : List ℕ) → take (n + m) xs ≡ take n xs ++ take m (drop n xs)
take_add zero m xs = rw (add.zero m) refl
take_add (suc n) zero [] = rw (add.suc n 0) refl
take_add (suc n) (suc m) [] = rw (add.suc n (suc m)) refl
take_add (suc n) m (x ∷ xs) = rw (add.suc n m) (ap (λ ys. x ∷ ys) (take_add n m xs))

-- From the `n`th byte on, `do_write` dies or writes the bytes up to the count that it returns.
data Writes (buf out : List ℕ) (n : ℕ) : Outcome ℕ → Type 0 where
  dies : (w : World) → Writes buf out n (died w)
  wrote :
      (m c : ℕ)
      → n ≤ m
      → m ≤ length buf
      → Writes buf out n (done m (record { calls = c; out = out ++ take (m - n) (drop n buf) }))

module _ (sys : Sys) (writes : IsBounded sys.write) where
  Writes-step :
      (buf out : List ℕ) (n k : ℕ) (r : Outcome ℕ)
      → Writes buf (out ++ take (suc k) (drop n buf)) (n + suc k) r
      → Writes buf out n r
  Writes-step buf out n k _ (dies w) = dies w
  Writes-step buf out n k _ (wrote m c le top) =
      let e : m - n ≡ suc k + (m - (n + suc k)) = omega arith in
      let bytes : out ++ take (m - n) (drop n buf)
          ≡ (out ++ take (suc k) (drop n buf)) ++ take (m - (n + suc k)) (drop (n + suc k) buf) =
        rw (e, take_add (suc k) (m - (n + suc k)) (drop n buf), drop-drop n (suc k) buf)
          (sym (append_assoc out (take (suc k) (drop n buf)) _)) in
      subst (λ o. Writes buf out n (done m (record { calls = c; out = o }))) bytes
        (wrote m c (omega arith) top)

  do_write-Writes :
      (fuel n : ℕ) (buf : List ℕ) (w : World)
      → n ≤ length buf
      → length buf < n + fuel
      → Writes buf w.out n (do_write sys fuel n buf w)
  unfolding do_write
  do_write-Writes zero n buf w le enough = absurd (omega arith)
  do_write-Writes (suc fuel) n buf w le enough =
      elim (Option-cases (sys.write w.calls (length (drop n buf)))) [
        | inl e ↦ rw (e, do_write) (dies w)
        | inr (zero, e) ↦
            rw (e, do_write)
              (subst (λ o. Writes buf w.out n (done n (record { calls = w.calls + 1; out = o })))
                (let none_more : n - n ≡ 0 = omega arith in rw (none_more, append-nil w.out) refl)
                (wrote n (w.calls + 1) (omega arith) le))
        | inr (suc k, e) ↦
            let part = writes w.calls (length (drop n buf)) (suc k) e in
            rw (e, do_write)
              (Writes-step buf w.out n k _ (
                do_write-Writes fuel (n + suc k) buf _ (omega (arith, part, length-drop n buf))
                  (omega arith)))
      ]

-- The copy died, or the output has the whole input at its end.
pub data IsCopy (out file : List ℕ) : Outcome (Unit {0}) → Type 0 where
  dies : (w : World) → IsCopy out file (died w)
  copies : (c : ℕ) → IsCopy out file (done tt (record { calls = c; out = out ++ file }))

IsCopy-step :
    (out buf file : List ℕ) (r : Outcome (Unit {0}))
    → IsCopy (out ++ buf) file r
    → IsCopy out (buf ++ file) r
IsCopy-step out buf file _ (dies w) = dies w
IsCopy-step out buf file _ (copies c) =
    subst (λ o. IsCopy out (buf ++ file) (done tt (record { calls = c; out = o })))
      (sym (append_assoc out buf file)) (copies c)

take-all : (xs : List ℕ) → take (length xs) xs ≡ xs
take-all [] = refl
take-all (x ∷ xs) = ap (λ ys. x ∷ ys) (take-all xs)

-- What follows a call of `do_write` gets the whole buffer written, or is not reached.
then_copy-IsCopy :
    (buf out file : List ℕ) (rest : World → Outcome (Unit {0})) (r : Outcome ℕ)
    → Writes buf out 0 r
    → ((c : ℕ) → IsCopy (out ++ buf) file (rest (record { calls = c; out = out ++ buf })))
    → IsCopy out (buf ++ file) (then_copy rest (length buf) r)
then_copy-IsCopy buf out file rest _ (dies w) later = dies w
then_copy-IsCopy buf out file rest _ (wrote m c le top) later =
    elim (Bool-cases (m == length buf)) [
      | inr short ↦ rw short (dies _)
      | inl all ↦
          let same : m ≡ length buf = ground arith in
          let e : m - 0 ≡ length buf = omega (arith, same) in
          rw (all, e, take-all buf) (IsCopy-step out buf file _ (later c))
    ]

at_hand-nil : (file : List ℕ) → at_hand file ≡ 0 → file ≡ []
at_hand-nil [] e = refl
at_hand-nil (b ∷ bs) e = absurd (ground arith)

at_hand-le : (file : List ℕ) → at_hand file ≤ length file
at_hand-le file = ground arith

module _ (sys : Sys) (writes : IsBounded sys.write) (reads : IsBounded sys.read)
    (stops : (c n : ℕ) → sys.read c n ≡ some 0 → n ≡ 0) where
  -- When no `read` or `write` moves more bytes than there are, and a `read` gives none only at the end
  -- of the input: `cat_contents` either ends the program by `die`, or it returns with the whole input
  -- appended to the output, in either case within the fuel of one round for each byte and one more.
  pub cat_contents-IsCopy :
      (fuel : ℕ) (file : List ℕ) (w : World)
      → length file < fuel
      → IsCopy w.out file (cat_contents sys fuel file w)
  unfolding cat_contents
  cat_contents-IsCopy zero file w enough = absurd (omega arith)
  cat_contents-IsCopy (suc fuel) file w enough =
      elim (Option-cases (sys.read w.calls (at_hand file))) [
        | inl e ↦ rw (e, cat_contents) (dies w)
        | inr (zero, e) ↦
            let empty = at_hand-nil file (stops w.calls (at_hand file) e) in
            rw (e, cat_contents, empty)
              (subst (λ o. IsCopy w.out [] (done tt (record { calls = w.calls + 1; out = o })))
                (append-nil w.out) (copies (w.calls + 1)))
        | inr (suc k, e) ↦
            let buf = take (suc k) file in
            let part = reads w.calls (at_hand file) (suc k) e in
            let some_left = at_hand-le file in
            let w' : World = record w { calls = w.calls + 1 } in
            let rest = cat_contents sys fuel (drop (suc k) file) in
            let written = do_write sys (length buf + 1) 0 buf w' in
            rw (e, cat_contents)
              (subst (λ f. IsCopy w.out f (then_copy rest (length buf) written))
                (take-drop (suc k) file)
                (then_copy-IsCopy buf w.out (drop (suc k) file) rest written
                  (do_write-Writes sys writes (length buf + 1) 0 buf w' (omega arith) (omega arith))
                  λ c.
                    cat_contents-IsCopy fuel (drop (suc k) file)
                      (record { calls = c; out = w.out ++ buf })
                      (omega (arith, part, some_left, length-drop (suc k) file))))
      ]
