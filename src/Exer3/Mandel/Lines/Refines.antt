-- ===== src/Exer3/Mandel/Lines/Refines.antt =====
-- A run of mandel2.c is one of mandel.c on as many lines as all the threads have computed.
use native.Mathlib.Nat.{mul-le-mul_right, add-mul, lt-div-mul-add, div-mul-le_self}
use cslab_os.Base.{
  fun_ext, ℕ, suc, ◌+◌, ◌-◌, ◌*◌, ◌%◌, ◌<◌, ◌≤◌, ◌≡◌, refl, sym, ap, ◌∙◌, subst, ltb, if◌then◌else◌,
  List, [], ◌∷◌, ◌++◌, arith, ◌⊎◌, inl, inr,
}
use cslab_os.Exer3.Mandel.Turns
use cslab_os.Exer3.Mandel.Turns.{y_chars, width, update, head, waits}
use cslab_os.Exer3.Mandel.Turns.Rows.{update-here, update-other, same_or_other}
use cslab_os.Exer3.Mandel.Lines.{
  size, Place, computes, outputs, State, line_of, Step, compute, computed, wait, print, post, start,
  Run, begin, step,
}

-- The place in mandel.c. The first loop stands for the computing of the first line; each later line
-- counts as computed when its turn comes.
unfoldable pub place_of : ℕ → ℕ → Place → Turns.Place
place_of nthreads idx (computes i) = head idx
place_of nthreads idx (outputs i) =
    if ltb i (size nthreads) then waits (line_of nthreads idx i) else head (line_of nthreads idx i)
place_of nthreads idx (Place.prints i n) = Turns.prints (line_of nthreads idx i) n

abbrev pub plain : ℕ → State → Turns.State
plain nthreads s = record {
  sems = s.sems;
  places = λ idx. place_of nthreads idx (s.places idx);
  output = s.output;
}

module _ {A : Type 0} (f : ℕ → A) (idx : ℕ) where
  update-same : (a : A) → f idx ≡ a → update f idx a ≡ f
  update-same a e = fun_ext (λ j. elim (same_or_other j idx) [
    | inl same ↦ ap (update f idx a) same ∙ update-here f idx a ∙ sym (ap f same ∙ e)
    | inr other ↦ update-other f idx a j other
  ])

  update-again : (a b : A) → update (update f idx a) idx b ≡ update f idx b
  update-again a b = fun_ext (λ j. elim (same_or_other j idx) [
    | inl same ↦
        ap (update (update f idx a) idx b) same
        ∙ update-here (update f idx a) idx b
        ∙ sym (ap (update f idx b) same ∙ update-here f idx b)
    | inr other ↦
        update-other (update f idx a) idx b j other
        ∙ update-other f idx a j other
        ∙ sym (update-other f idx b j other)
  ])

module _ (nthreads : ℕ) where
  -- The places when one thread moves.
  places-update :
      (places : ℕ → Place) (idx : ℕ) (p : Place)
      → update (λ j. place_of nthreads j (places j)) idx (place_of nthreads idx p)
        ≡ (λ j. place_of nthreads j (update places idx p j))
  places-update places idx p = fun_ext (λ j. elim (same_or_other j idx) [
    | inl same ↦
        ap (update (λ k. place_of nthreads k (places k)) idx (place_of nthreads idx p)) same
        ∙ update-here (λ k. place_of nthreads k (places k)) idx (place_of nthreads idx p)
        ∙ sym (
            ap (λ k. place_of nthreads k (update places idx p k)) same
            ∙ ap (place_of nthreads idx) (update-here places idx p))
    | inr other ↦
        update-other (λ k. place_of nthreads k (places k)) idx (place_of nthreads idx p) j other
        ∙ ap (place_of nthreads j) (sym (update-other places idx p j other))
  ])

  abbrev pub lines : ℕ
  lines = size nthreads * nthreads

  abbrev Reached : (ℕ → ℕ) → (ℕ → Turns.Place) → List (ℕ × ℕ) → Type 0
  Reached sems places output =
      Turns.Reach lines nthreads (record { sems = sems; places = places; output = output })

  -- The places before a step.
  abbrev pub view : State → ℕ → Turns.Place
  view s j = place_of nthreads j (s.places j)

  pub at_place :
      (s : State) (idx : ℕ) {p : Place} → s.places idx ≡ p → view s idx ≡ place_of nthreads idx p
  at_place s idx e = ap (place_of nthreads idx) e

  pub outputs-waits :
      (idx i : ℕ)
      → i < size nthreads
      → place_of nthreads idx (outputs i) ≡ waits (line_of nthreads idx i)
  unfolding place_of
  outputs-waits idx i more = ground (arith, more)

  pub outputs-head :
      (idx i : ℕ)
      → size nthreads ≤ i
      → place_of nthreads idx (outputs i) ≡ head (line_of nthreads idx i)
  unfolding place_of
  outputs-head idx i over = ground (arith, over)

  line_of-lines : (idx i : ℕ) → idx < nthreads → i < size nthreads → line_of nthreads idx i < lines
  unfolding line_of
  line_of-lines idx i inside more =
      omega (arith, mul-le-mul_right nthreads more, add-mul i 1 nthreads)

  line_of-suc : (idx i : ℕ) → line_of nthreads idx i + nthreads ≡ line_of nthreads idx (i + 1)
  unfolding line_of
  line_of-suc idx i = omega (arith, add-mul i 1 nthreads)

  line_of-zero : (idx : ℕ) → line_of nthreads idx 0 ≡ idx
  unfolding line_of
  line_of-zero idx = omega arith

  -- All the lines of the picture, and less than one more for each thread.
  pub lines_bounds : 0 < nthreads → (y_chars ≤ lines) × (lines < y_chars + nthreads)
  unfolding size
  lines_bounds some_thread = (
    omega (arith, lt-div-mul-add {a = y_chars + nthreads - 1} some_thread, some_thread),
    omega (arith, div-mul-le_self (y_chars + nthreads - 1) nthreads, some_thread),
  )

  size_pos : 0 < nthreads → 0 < size nthreads
  size_pos some_thread = elim (less_or_zero (size nthreads)) [
    | inl more ↦ more
    | inr none ↦ absurd (omega (arith, (lines_bounds some_thread).0, ap (λ n. n * nthreads) none))
  ]
    where
      less_or_zero : (n : ℕ) → (0 < n) ⊎ (n ≡ 0)
      less_or_zero n = ground arith

  -- A thread of the other program moves as this one does.
  moved :
      (s : State) (idx : ℕ) (p : Place) (sems : ℕ → ℕ) (output : List (ℕ × ℕ))
      → Reached sems (update (view s) idx (place_of nthreads idx p)) output
      → Reached sems (λ j. place_of nthreads j (update s.places idx p j)) output
  moved s idx p sems output =
      subst (λ places. Reached sems places output) (places-update s.places idx p)

  plain-post :
      (s : State) (idx i : ℕ)
      → idx < nthreads
      → s.places idx ≡ Place.prints i width
      → Turns.Reach lines nthreads (plain nthreads s)
      → Reached
          (update s.sems ((idx + 1) % nthreads) (suc (s.sems ((idx + 1) % nthreads))))
          (update (view s) idx (place_of nthreads idx (outputs (i + 1))))
          s.output
  unfolding place_of
  plain-post s idx i inside here reached =
      let sems = update s.sems ((idx + 1) % nthreads) (suc (s.sems ((idx + 1) % nthreads))) in
      let line = line_of nthreads idx i in
      let next = line_of nthreads idx (i + 1) in
      let done = Turns.step reached (Turns.post idx line inside (at_place s idx here)) in
      let ready =
        subst (λ l. Reached sems (update (view s) idx (head l)) s.output) (line_of-suc idx i)
          done in
      elim (before_end (i + 1)) [
        | inl more ↦
            let again = Turns.step ready (
              Turns.compute idx next inside (update-here (view s) idx (head next))
                (line_of-lines idx (i + 1) inside more)) in
            subst (λ places. Reached sems places s.output)
              (update-again (view s) idx (head next) (waits next)
                ∙ ap (update (view s) idx) (sym (outputs-waits idx (i + 1) more)))
              again
        | inr over ↦
            subst (λ p. Reached sems (update (view s) idx p) s.output)
              (sym (outputs-head idx (i + 1) over)) ready
      ]
    where
      before_end : (k : ℕ) → (k < size nthreads) ⊎ (size nthreads ≤ k)
      before_end k = ground arith

  plain-Step :
      {s s' : State}
      → 0 < nthreads
      → Step nthreads s s'
      → Turns.Reach lines nthreads (plain nthreads s)
      → Turns.Reach lines nthreads (plain nthreads s')
  unfolding place_of
  plain-Step {s} some_thread (compute idx i inside here more) reached =
      moved s idx (computes (i + 1)) s.sems s.output (
        subst (λ places. Reached s.sems places s.output)
          (sym (update-same (view s) idx (head idx) (at_place s idx here))) reached)
  plain-Step {s} some_thread (computed idx inside here) reached =
      moved s idx (outputs 0) s.sems s.output (
        subst (λ p. Reached s.sems (update (view s) idx p) s.output)
          (sym (outputs-waits idx 0 (size_pos some_thread)))
          (Turns.step reached (
            Turns.compute idx (line_of nthreads idx 0) inside
              (at_place s idx here ∙ ap head (sym (line_of-zero idx)))
              (line_of-lines idx 0 inside (size_pos some_thread)))))
  plain-Step {s} some_thread (wait idx i k inside here more raised) reached =
      moved s idx (Place.prints i 0) _ s.output (
        Turns.step reached (
          Turns.wait idx (line_of nthreads idx i) k inside
            (at_place s idx here ∙ outputs-waits idx i more) raised))
  plain-Step {s} some_thread (print idx i n inside here more) reached =
      moved s idx (Place.prints i (n + 1)) s.sems (s.output ++ (line_of nthreads idx i, n) ∷ []) (
        Turns.step reached
          (Turns.print idx (line_of nthreads idx i) n inside (at_place s idx here) more))
  plain-Step {s} some_thread (post idx i inside here) reached =
      moved s idx (outputs (i + 1)) _ s.output (plain-post s idx i inside here reached)

  plain-start : plain nthreads start ≡ Turns.start
  unfolding start Turns.start place_of
  plain-start = refl

  -- With at least one thread, in whatever order the threads take their steps: mandel2.c comes only to
  -- states that mandel.c comes to on a picture of `size nthreads * nthreads` lines, with the same
  -- semaphores and the same output.
  pub Run-Reach :
      {s : State} → 0 < nthreads → Run nthreads s → Turns.Reach lines nthreads (plain nthreads s)
  Run-Reach some_thread begin = subst (Turns.Reach lines nthreads) (sym plain-start) Turns.begin
  Run-Reach some_thread (step run next) = plain-Step some_thread next (Run-Reach some_thread run)
