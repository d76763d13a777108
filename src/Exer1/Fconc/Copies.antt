-- ===== src/Exer1/Fconc/Copies.antt =====
-- The output is the inputs, one after the other.
use Prim.Native.Nat.add
use cslab_os.Base.{
  ℕ, zero, suc, ◌+◌, ◌-◌, ◌≤◌, ◌<◌, ◌≡◌, refl, ap, ◌∙◌, Option, some, List, [], ◌∷◌, ◌++◌, arith,
  length, take, drop, append-nil, append_assoc, eq→==, Bool-cases, inl, inr, leb,
}
use cslab_os.Exer1.Fconc.Defs.{Sys, World, done, do_write, at_hand, cat_contents, concatenate}

-- The system moves a part of what there is, at least a byte, and nothing only where there is nothing.
pub record Cooperates (answer : ℕ → ℕ → Option ℕ) : Type 0 where
  pub nothing : (c : ℕ) → answer c 0 ≡ some 0
  pub something : (c n : ℕ) → 0 < n → (k : ℕ) × (answer c n ≡ some (suc k)) × (suc k ≤ n)

pub take-drop : (n : ℕ) (xs : List ℕ) → take n xs ++ drop n xs ≡ xs
take-drop zero xs = refl
take-drop (suc n) [] = refl
take-drop (suc n) (x ∷ xs) = ap (λ ys. x ∷ ys) (take-drop n xs)

pub drop-drop : (n m : ℕ) (xs : List ℕ) → drop (n + m) xs ≡ drop m (drop n xs)
drop-drop zero m xs = rw (add.zero m) refl
drop-drop (suc n) zero [] = rw (add.suc n 0) refl
drop-drop (suc n) (suc m) [] = rw (add.suc n (suc m)) refl
drop-drop (suc n) m (x ∷ xs) = rw (add.suc n m) (drop-drop n m xs)

pub length-drop : (n : ℕ) (xs : List ℕ) → length (drop n xs) ≡ length xs - n
length-drop zero xs = omega arith
length-drop (suc n) [] = omega arith
length-drop (suc n) (x ∷ xs) = omega (arith, length-drop n xs)

pub drop-all : (n : ℕ) (xs : List ℕ) → length xs ≤ n → drop n xs ≡ []
drop-all zero [] h = refl
drop-all zero (x ∷ xs) h = absurd (omega arith)
drop-all (suc n) [] h = refl
drop-all (suc n) (x ∷ xs) h = drop-all n xs (omega arith)

module _ (sys : Sys) (writes : Cooperates sys.write) where
  do_write-all :
      (fuel n_write : ℕ) (buf : List ℕ) (w : World)
      → n_write ≤ length buf
      → length buf < n_write + fuel
      → (c : ℕ) × (do_write sys fuel n_write buf w
          ≡ done (length buf) (record { calls = c; out = w.out ++ drop n_write buf }))
  unfolding do_write
  do_write-all zero n_write buf w le enough = absurd (omega arith)
  do_write-all (suc fuel) n_write buf w le enough = elim (Bool-cases (leb (length buf) n_write)) [
    | inl last ↦
        let full : length buf ≤ n_write = ground arith in
        let none_left = drop-all n_write buf full in
        let here : n_write ≡ length buf = omega (arith, full, le) in
        let e : sys.write w.calls (length (drop n_write buf)) ≡ some 0 =
          rw none_left (writes.nothing w.calls) in
        (
          w.calls + 1,
          rw (e, do_write, none_left, append-nil w.out)
              (ap (λ n. done n (record { calls = w.calls + 1; out = w.out })) here),
        )
    | inr more ↦
        let left : 0 < length (drop n_write buf) = ground (arith, length-drop n_write buf) in
        let (k, e, part) = writes.something w.calls (length (drop n_write buf)) left in
        let (c, r) =
          do_write-all fuel (n_write + suc k) buf
            (record { calls = w.calls + 1; out = w.out ++ take (suc k) (drop n_write buf) })
            (omega (arith, part, length-drop n_write buf)) (omega arith) in
        (
          c,
          rw (e, do_write)
              (r
                ∙ ap (λ o. done (length buf) (record { calls = c; out = o }))
                    (append_assoc w.out (take (suc k) (drop n_write buf))
                        (drop (n_write + suc k) buf)
                      ∙ ap (λ ys. w.out ++ ys)
                          (rw (drop-drop n_write (suc k) buf)
                            (take-drop (suc k) (drop n_write buf))))),
        )
  ]

module _ (sys : Sys) (writes : Cooperates sys.write) (reads : Cooperates sys.read) where
  cat_contents-all :
      (fuel : ℕ) (file : List ℕ) (w : World)
      → length file < fuel
      → (c : ℕ) × (cat_contents sys fuel file w
          ≡ done tt (record { calls = c; out = w.out ++ file }))
  unfolding cat_contents
  cat_contents-all zero file w enough = absurd (omega arith)
  cat_contents-all (suc fuel) [] w enough =
      (w.calls + 1, rw (reads.nothing w.calls, cat_contents, append-nil w.out) refl)
  cat_contents-all (suc fuel) (b ∷ bs) w enough =
      let file = b ∷ bs in
      let some_bytes : 0 < at_hand file = ground arith in
      let (k, e, part) = reads.something w.calls (at_hand file) some_bytes in
      let buf = take (suc k) file in
      let (c, r) =
        do_write-all sys writes (length buf + 1) 0 buf (record { calls = w.calls + 1; out = w.out })
          (omega arith) (omega arith) in
      let (c', r') =
        cat_contents-all fuel (drop (suc k) file) (record { calls = c; out = w.out ++ buf })
          (omega (arith, length-drop (suc k) file)) in
      (
        c',
        rw (e, cat_contents, r, eq→== (length buf) (length buf) refl)
            (r'
              ∙ ap (λ o. done tt (record { calls = c'; out = o }))
                  (append_assoc w.out buf (drop (suc k) file)
                    ∙ ap (λ ys. w.out ++ ys) (take-drop (suc k) file))),
      )

-- The files one after the other.
abbrev pub concat : List (List ℕ) → List ℕ
concat [] = []
concat (file ∷ files) = file ++ concat files

-- When each `read` and `write` moves at least a byte of those at hand, nothing only when there are
-- none, and never fails: the copying ends, however short the reads and writes are, and appends the
-- inputs to the output, one after the other.
pub concatenate-concat :
    (sys : Sys)
    → Cooperates sys.write
    → Cooperates sys.read
    → (files : List (List ℕ)) (w : World)
    → (c : ℕ) × (concatenate sys files w
        ≡ done tt (record { calls = c; out = w.out ++ concat files }))
unfolding concatenate
concatenate-concat sys writes reads [] w = (w.calls, rw (append-nil w.out) refl)
concatenate-concat sys writes reads (file ∷ files) w =
    let (c, r) = cat_contents-all sys writes reads (length file + 1) file w (omega arith) in
    let (c', r') =
      concatenate-concat sys writes reads files (record { calls = c; out = w.out ++ file }) in
    (
      c',
      rw r (
          r'
          ∙ ap (λ o. done tt (record { calls = c'; out = o }))
              (append_assoc w.out file (concat files))),
    )
