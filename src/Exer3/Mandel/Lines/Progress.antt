-- ===== src/Exer3/Mandel/Lines/Progress.antt =====
-- The threads of mandel2.c do not stop before all lines are written.
use native.Mathlib.Nat.{mul-le-mul_right}
use cslab_os.Base.{ℕ, ◌+◌, ◌<◌, ◌≤◌, ◌≡◌, refl, sym, ap, ◌∙◌, subst, arith, ◌⊎◌, inl, inr}
use cslab_os.Exer3.Mandel.Turns
use cslab_os.Exer3.Mandel.Turns.{width, update, head, waits}
use cslab_os.Exer3.Mandel.Turns.Order.{
  Waiting-head, Waiting-prints, Idle, Busy, next_line-turn, mod_small,
}
use cslab_os.Exer3.Mandel.Turns.Rows.{rows, update-here, update-other, same_or_other}
use cslab_os.Exer3.Mandel.Turns.Picture.{Reach-Turn}
use cslab_os.Exer3.Mandel.Lines.{
  size, Place, computes, outputs, State, line_of, Step, compute, computed, wait, print, post, start,
  Run, begin, step,
}
use cslab_os.Exer3.Mandel.Lines.Refines.{
  place_of, plain, lines, at_place, outputs-waits, outputs-head, Run-Reach,
}

module _ (nthreads : ℕ) where
  -- No thread computes more lines than its share.
  abbrev Within : Place → Type 0
  Within p = (i : ℕ) → p ≡ computes i → i ≤ size nthreads

  update-Within :
      (places : ℕ → Place) (idx : ℕ) (p : Place)
      → ((j : ℕ) → Within (places j))
      → Within p
      → (j : ℕ) → Within (update places idx p j)
  update-Within places idx p before here j = elim (same_or_other j idx) [
    | inl same ↦ subst Within (sym (ap (update places idx p) same ∙ update-here places idx p)) here
    | inr other ↦ subst Within (sym (update-other places idx p j other)) (before j)
  ]

  computes-eq : {i k : ℕ} → computes i ≡ computes k → i ≡ k
  computes-eq e = cc

  Step-Within :
      {s s' : State}
      → Step nthreads s s'
      → ((j : ℕ) → Within (s.places j))
      → (j : ℕ) → Within (s'.places j)
  Step-Within {s} (compute idx i inside here more) before =
      update-Within s.places idx (computes (i + 1)) before
        (λ k e. omega (arith, computes-eq e, more))
  Step-Within {s} (computed idx inside here) before =
      update-Within s.places idx (outputs 0) before (λ k e. absurd cc)
  Step-Within {s} (wait idx i k inside here more raised) before =
      update-Within s.places idx (Place.prints i 0) before (λ k e. absurd cc)
  Step-Within {s} (print idx i n inside here more) before =
      update-Within s.places idx (Place.prints i (n + 1)) before (λ k e. absurd cc)
  Step-Within {s} (post idx i inside here) before =
      update-Within s.places idx (outputs (i + 1)) before (λ k e. absurd cc)

  Run-Within : {s : State} → Run nthreads s → (j : ℕ) → Within (s.places j)
  unfolding start
  Run-Within begin = λ j i e. omega (arith, computes-eq e)
  Run-Within (step run next) = Step-Within next (Run-Within run)

  abbrev pub CanDraw : State → Type 0
  CanDraw s = (s' : State) × Step nthreads s s'

  compute_or_output : (i : ℕ) → i ≤ size nthreads → (i < size nthreads) ⊎ (i ≡ size nthreads)
  compute_or_output i within = ground (arith, within)

  can_compute :
      (s : State) (idx i : ℕ)
      → idx < nthreads
      → s.places idx ≡ computes i
      → i ≤ size nthreads
      → CanDraw s
  can_compute s idx i inside here within = elim (compute_or_output i within) [
    | inl more ↦ (_, compute idx i inside here more)
    | inr all ↦ (_, computed idx inside (here ∙ ap computes all))
  ]

  before_end : (i : ℕ) → (i < size nthreads) ⊎ (size nthreads ≤ i)
  before_end i = ground arith

  line_of-past : (idx i : ℕ) → size nthreads ≤ i → lines nthreads ≤ line_of nthreads idx i
  unfolding line_of
  line_of-past idx i past = omega (arith, mul-le-mul_right nthreads past)

  -- The thread whose turn it is can go on.
  Idle-CanDraw :
      {base turn : ℕ} (s : State) (p : Place)
      → ((j : ℕ) → Within (s.places j))
      → Idle (lines nthreads) nthreads base turn (plain nthreads s)
      → base + turn < lines nthreads
      → s.places turn ≡ p
      → CanDraw s
  unfolding place_of
  Idle-CanDraw {base} {turn} s (computes i) within idle more here =
      can_compute s turn i idle.in_ring here (within turn i here)
  Idle-CanDraw {base} {turn} s (outputs i) within idle more here = elim (before_end i) [
    | inl left ↦ (
      _,
      wait turn i 0 idle.in_ring here left
          (ap s.sems (mod_small (lines nthreads) nthreads turn idle.in_ring) ∙ idle.token),
    )
    | inr past ↦
        let same =
          Waiting-head (lines nthreads) (idle.waiting turn idle.in_ring)
            (at_place nthreads s turn here ∙ outputs-head nthreads turn i past) in
        absurd (
          omega (
            arith,
            same,
            next_line-turn (lines nthreads) nthreads base turn,
            line_of-past turn i past,
            more,
          ))
  ]
  Idle-CanDraw {base} {turn} s (Place.prints i n) within idle more here = absurd (
      Waiting-prints (lines nthreads) (idle.waiting turn idle.in_ring)
        (at_place nthreads s turn here))

  full_or_more : (n : ℕ) → n ≤ width → (n < width) ⊎ (n ≡ width)
  full_or_more n within = ground (arith, within)

  prints-eq : {i j m n : ℕ} → Turns.prints i m ≡ Turns.prints j n → m ≡ n
  prints-eq e = cc

  -- The thread that prints can go on.
  Busy-CanDraw :
      {base turn n : ℕ} (s : State) (p : Place)
      → Busy (lines nthreads) nthreads base turn n (plain nthreads s)
      → s.places turn ≡ p
      → CanDraw s
  unfolding place_of
  Busy-CanDraw {base} {turn} s (computes i) busy here =
      let e = sym busy.printing ∙ at_place nthreads s turn here in absurd cc
  Busy-CanDraw {base} {turn} s (outputs i) busy here = elim (before_end i) [
    | inl left ↦
        let e =
          sym busy.printing ∙ at_place nthreads s turn here ∙ outputs-waits nthreads turn i left in
        absurd cc
    | inr past ↦
        let e =
          sym busy.printing ∙ at_place nthreads s turn here ∙ outputs-head nthreads turn i past in
        absurd cc
  ]
  Busy-CanDraw {base} {turn} {n} s (Place.prints i m) busy here =
      let same = prints-eq (sym busy.printing ∙ at_place nthreads s turn here) in
      elim (full_or_more m (omega (arith, busy.in_line, same))) [
        | inl more ↦ (_, print turn i m busy.in_ring here more)
        | inr whole ↦ (_, post turn i busy.in_ring (here ∙ ap (Place.prints i) whole))
      ]

  below_or_all : (a b : ℕ) → a ≤ b → (a < b) ⊎ (a ≡ b)
  below_or_all a b within = ground (arith, within)

  -- With at least one thread, in every state that mandel2.c comes to, in whatever order its threads take
  -- their steps: some thread can take a step, or the lines that all the threads have computed are written
  -- in order from the first one on, and nothing after them.
  pub Run-CanDraw :
      {s : State} → 0 < nthreads → Run nthreads s → CanDraw s ⊎ (s.output ≡ rows (lines nthreads))
  Run-CanDraw {s} some_thread run =
      elim (Reach-Turn (lines nthreads) nthreads some_thread (Run-Reach nthreads some_thread run)) [
        | inl (base, turn, idle) ↦
            elim (below_or_all (base + turn) (lines nthreads) idle.not_past) [
              | inl more ↦ inl (Idle-CanDraw s (s.places turn) (Run-Within run) idle more refl)
              | inr all ↦ inr (idle.written ∙ ap rows all)
            ]
        | inr (base, turn, n, busy) ↦ inl (Busy-CanDraw s (s.places turn) busy refl)
      ]
