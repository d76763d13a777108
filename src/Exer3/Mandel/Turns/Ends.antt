-- ===== src/Exer3/Mandel/Turns/Ends.antt =====
-- The threads stop after a bounded number of steps.
use native.Mathlib.Nat.{add-mul}
use cslab_os.Base.{
  ℕ, zero, suc, ◌+◌, ◌*◌, ◌<◌, ◌≤◌, ◌≡◌, ◌≢◌, refl, ap, ap₂, sym, ◌∙◌, subst, inl, inr, arith, ap₂,
}
use cslab_os.Exer3.Mandel.Turns.{
  width, Place, head, waits, prints, State, update, Step, compute, wait, print, post, start,
}
use cslab_os.Exer3.Mandel.Turns.Rows.{update-here, update-other, same_or_other}

module _ (lines : ℕ) where
  -- A run of so many steps.
  pub data Run (nthreads : ℕ) : ℕ → State → Type 0 where
    begin : Run nthreads 0 start
    step :
        {k : ℕ} {s s' : State}
        → Run nthreads k s
        → Step lines nthreads s s'
        → Run nthreads (suc k) s'

  -- How far a thread has come: 94 for a line.
  abbrev progress : Place → ℕ
  progress (head i) = i * 94
  progress (waits i) = i * 94 + 1
  progress (prints i n) = i * 94 + 2 + n

  sum : ℕ → (ℕ → ℕ) → ℕ
  sum zero f = 0
  sum (suc n) f = sum n f + f n

  abbrev total : ℕ → (ℕ → Place) → ℕ
  total n places = sum n (λ j. progress (places j))

  total-same :
      (n : ℕ) (places : ℕ → Place) (idx : ℕ) (p : Place)
      → n ≤ idx
      → total n (update places idx p) ≡ total n places
  unfolding sum
  total-same zero places idx p outside = refl
  total-same (suc n) places idx p outside =
      ap₂ (λ a b. a + b) (total-same n places idx p (omega arith))
        (ap progress (update-other places idx p n (λ e. absurd (omega (arith, e, outside)))))

  -- A thread that comes farther adds to the total.
  total-update :
      (n : ℕ) (places : ℕ → Place) (idx : ℕ) (p : Place)
      → idx < n
      → progress (places idx) < progress p
      → total n places < total n (update places idx p)
  unfolding sum
  total-update zero places idx p inside farther = absurd (omega arith)
  total-update (suc n) places idx p inside farther = elim (same_or_other idx n) [
    | inl same ↦
        let here = ap progress (ap (update places idx p) (sym same) ∙ update-here places idx p) in
        omega (
          arith,
          total-same n places idx p (omega (arith, same)),
          here,
          farther,
          ap (λ j. progress (places j)) same,
        )
    | inr other ↦
        let apart : n ≢ idx = λ e. other (sym e) in
        omega (
          arith,
          total-update n places idx p (omega (arith, other, inside)) farther,
          ap progress (update-other places idx p n apart),
        )
  ]

  -- A thread is at one of the lines, or at the head of its loop at most a round after them.
  abbrev Placed : ℕ → Place → Type 0
  Placed nthreads (head i) = i < lines + nthreads
  Placed nthreads (waits i) = i < lines
  Placed nthreads (prints i n) = (i < lines) × (n ≤ width)

  Placed-progress :
      (nthreads : ℕ) (p : Place) → Placed nthreads p → progress p ≤ (lines + nthreads) * 94
  Placed-progress nthreads (head i) small = omega arith
  Placed-progress nthreads (waits i) small = omega arith
  Placed-progress nthreads (prints i n) (small, within) = omega arith

  update-Placed :
      (nthreads : ℕ) (places : ℕ → Place) (idx : ℕ) (p : Place)
      → ((j : ℕ) → j < nthreads → Placed nthreads (places j))
      → Placed nthreads p
      → (j : ℕ) → j < nthreads
      → Placed nthreads (update places idx p j)
  update-Placed nthreads places idx p before here j inside = elim (same_or_other j idx) [
    | inl same ↦
        subst (Placed nthreads) (sym (ap (update places idx p) same ∙ update-here places idx p))
          here
    | inr other ↦
        subst (Placed nthreads) (sym (update-other places idx p j other)) (before j inside)
  ]

  total-Within :
      (n bound : ℕ) (places : ℕ → Place)
      → ((j : ℕ) → j < n → progress (places j) ≤ bound)
      → total n places ≤ n * bound
  unfolding sum
  total-Within zero bound places within = omega arith
  total-Within (suc n) bound places within = omega (
    arith,
    total-Within n bound places (λ j inside. within j (omega (arith, inside))),
    within n (omega arith),
    add-mul n 1 bound,
  )

  -- What is known of the places after so many steps.
  record Counted (nthreads k : ℕ) (s : State) : Type 0 where
    placed : (j : ℕ) → j < nthreads → Placed nthreads (s.places j)
    steps : k ≤ total nthreads s.places

  Counted-update :
      {nthreads k : ℕ} {s : State} (s' : State) (idx : ℕ) (p : Place)
      → Counted nthreads k s
      → s'.places ≡ update s.places idx p
      → idx < nthreads
      → progress (s.places idx) < progress p
      → Placed nthreads p
      → Counted nthreads (suc k) s'
  Counted-update {nthreads} {k} {s} s' idx p c moved inside farther here =
      let more = total-update nthreads s.places idx p inside farther in
      let after = update-Placed nthreads s.places idx p c.placed here in
      record {
        placed =
            subst (λ places. (j : ℕ) → j < nthreads → Placed nthreads (places j)) (sym moved) after;
        steps =
            subst (λ places. suc k ≤ total nthreads places) (sym moved)
              (omega (arith, more, c.steps));
      }

  Step-Counted :
      {nthreads k : ℕ} {s s' : State}
      → Counted nthreads k s
      → Step lines nthreads s s'
      → Counted nthreads (suc k) s'
  Step-Counted c (compute idx i inside here small) =
      Counted-update _ idx (waits i) c refl inside (omega (arith, ap progress here)) small
  Step-Counted {nthreads} c (wait idx i k inside here raised) =
      Counted-update _ idx (prints i 0) c refl inside (omega (arith, ap progress here))
        (subst (Placed nthreads) here (c.placed idx inside), omega arith)
  Step-Counted {nthreads} c (print idx i n inside here more) =
      Counted-update _ idx (prints i (n + 1)) c refl inside (omega (arith, ap progress here))
        ((subst (Placed nthreads) here (c.placed idx inside)).0, omega (arith, more))
  Step-Counted {nthreads} c (post idx i inside here) =
      let at_line = (subst (Placed nthreads) here (c.placed idx inside)).0 in
      Counted-update _ idx (head (i + nthreads)) c refl inside
        (omega (arith, ap progress here, inside)) (omega (arith, at_line))

  Run-Counted : {nthreads k : ℕ} {s : State} → Run nthreads k s → Counted nthreads k s
  unfolding start
  Run-Counted begin = record { placed = λ j inside. omega (arith, inside); steps = omega arith }
  Run-Counted (step run next) = Step-Counted (Run-Counted run) next

  -- In whatever order `nthreads` threads take their steps, together they take at most
  -- nthreads * ((lines + nthreads) * 94) of them, where `lines` is the number of lines of the picture.
  pub Run-steps :
      {nthreads k : ℕ} {s : State} → Run nthreads k s → k ≤ nthreads * ((lines + nthreads) * 94)
  Run-steps {nthreads} {k} {s} run =
      let c = Run-Counted run in
      omega (
        arith,
        c.steps,
        total-Within nthreads ((lines + nthreads) * 94) s.places
            (λ j inside. Placed-progress nthreads (s.places j) (c.placed j inside)),
      )
