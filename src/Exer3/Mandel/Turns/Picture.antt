-- ===== src/Exer3/Mandel/Turns/Picture.antt =====
-- The lines come in order, and all of them come.
use native.Mathlib.Nat.{mod_self}
use cslab_os.Base.{
  ℕ, suc, ◌+◌, ◌%◌, ◌<◌, ◌≤◌, ◌≡◌, refl, ap, sym, ◌∙◌, subst, append-nil, List, [], ◌∷◌, ◌++◌, ◌⊎◌,
  inl, inr, arith,
}
use cslab_os.Exer3.Mandel.Turns.{
  width, head, prints, State, update, Step, compute, wait, print, post, start, Reach, begin, step,
}
use cslab_os.Exer3.Mandel.Turns.Order.{
  Waiting-prints, next_line, Idle, Busy, Turn, Idle-compute, Idle-waiter, Idle-wait, Busy-compute,
  Busy-printer, Busy-print, Busy-post, next_line-turn, mod_small,
}
use cslab_os.Exer3.Mandel.Turns.Rows.{row, rows, update-here, update-other}

module _ (lines : ℕ) where
  module _ (nthreads : ℕ) where
    after_turn : (turn : ℕ) → turn < nthreads → (turn + 1 < nthreads) ⊎ (turn + 1 ≡ nthreads)
    after_turn turn in_ring = ground (arith, in_ring)

    -- The places and semaphores after a post of thread `idx` at line `i`.
    abbrev posted : State → (idx i next : ℕ) → State
    posted s idx i next = record s {
      sems = update s.sems next (suc (s.sems next));
      places = update s.places idx (head (i + nthreads));
    }

    abbrev printed : State → (idx i n : ℕ) → State
    printed s idx i n = record s {
      places = update s.places idx (prints i (n + 1));
      output = s.output ++ (i, n) ∷ [];
    }

    abbrev admitted : State → (idx i k sem : ℕ) → State
    admitted s idx i k sem = record s {
      sems = update s.sems sem k;
      places = update s.places idx (prints i 0);
    }

    prints-eq : {i j m n : ℕ} → prints i m ≡ prints j n → (i ≡ j) × (m ≡ n)
    prints-eq e = (cc, cc)

    Turn-post :
        {base turn : ℕ} {s : State}
        → Busy lines nthreads base turn width s
        → Turn lines nthreads (posted s turn (base + turn) ((turn + 1) % nthreads))
    Turn-post {base} {turn} {s} busy = elim (after_turn turn busy.in_ring) [
      | inl more ↦
          subst (λ next. Turn lines nthreads (posted s turn (base + turn) next))
            (sym (mod_small lines nthreads (turn + 1) more))
            (inl (
              base,
              turn + 1,
              Busy-post lines nthreads busy base (turn + 1) refl more (omega arith)
                  (λ j in_ring other. ground (arith, other)) (ground arith),
            ))
      | inr last ↦
          subst (λ next. Turn lines nthreads (posted s turn (base + turn) next))
            (sym (mod_self nthreads) ∙ ap (λ t. t % nthreads) (sym last))
            (inl (
              base + nthreads,
              0,
              Busy-post lines nthreads busy (base + nthreads) 0 refl (omega (arith, busy.in_ring))
                  (omega (arith, last)) (λ j in_ring other. ground (arith, last, in_ring, other))
                  (ground (arith, last)),
            ))
    ]

    Step-Turn :
        {s s' : State} → Turn lines nthreads s → Step lines nthreads s s' → Turn lines nthreads s'
    Step-Turn (inl (base, turn, idle)) (compute idx i small here more) =
        inl (base, turn, Idle-compute lines nthreads idle idx i here more)
    Step-Turn {s} (inl (base, turn, idle)) (wait idx i k small here raised) =
        let ring = mod_small lines nthreads idx small in
        let same = Idle-waiter lines nthreads idle idx k small (sym (ap s.sems ring) ∙ raised) in
        subst (λ sem. Turn lines nthreads (admitted s idx i k sem)) (sym ring)
          (subst (λ t. Turn lines nthreads (admitted s t i k t)) (sym same)
            (inr (
              base,
              turn,
              0,
              Idle-wait lines nthreads idle i k (ap s.places (sym same) ∙ here)
                  (ap s.sems (sym same ∙ sym ring) ∙ raised),
            )))
    Step-Turn (inl (base, turn, idle)) (print idx i n small here more) =
        absurd (Waiting-prints lines (idle.waiting idx small) here)
    Step-Turn (inl (base, turn, idle)) (post idx i small here) =
        absurd (Waiting-prints lines (idle.waiting idx small) here)
    Step-Turn (inr (base, turn, n, busy)) (compute idx i small here more) =
        inr (base, turn, n, Busy-compute lines nthreads busy idx i here more)
    Step-Turn (inr (base, turn, n, busy)) (wait idx i k small here raised) = absurd (
        omega (
          arith,
          raised,
          busy.no_token (idx % nthreads)
              (subst (λ t. t < nthreads) (sym (mod_small lines nthreads idx small)) small),
        ))
    Step-Turn {s} (inr (base, turn, n, busy)) (print idx i k small here more) =
        let same = Busy-printer lines nthreads busy idx i k small here in
        let (line, column) = prints-eq (sym busy.printing ∙ ap s.places (sym same) ∙ here) in
        let e : printed s turn (base + turn) n ≡ printed s idx i k = cc in
        subst (Turn lines nthreads) e
          (inr (base, turn, n + 1, Busy-print lines nthreads busy (omega (arith, column, more))))
    Step-Turn {s} (inr (base, turn, n, busy)) (post idx i small here) =
        let same = Busy-printer lines nthreads busy idx i width small here in
        let (line, column) = prints-eq (sym busy.printing ∙ ap s.places (sym same) ∙ here) in
        let e : posted s turn (base + turn) ((turn + 1) % nthreads)
            ≡ posted s idx i ((idx + 1) % nthreads) =
          cc in
        subst (Turn lines nthreads) e
          (Turn-post (subst (λ c. Busy lines nthreads base turn c s) column busy))

    start-Turn : 0 < nthreads → Turn lines nthreads start
    unfolding start rows
    start-Turn some_thread = inl (
      0,
      0,
      record {
        in_ring = some_thread;
        not_past = omega arith;
        waiting = λ j in_ring. inl (ap head (ground arith));
        token = update-here (λ i. 0) 0 1;
        no_other = λ j in_ring other. update-other (λ i. 0) 0 1 j other;
        written = refl;
      },
    )

    pub Reach-Turn : {s : State} → 0 < nthreads → Reach lines nthreads s → Turn lines nthreads s
    Reach-Turn some_thread begin = start-Turn some_thread
    Reach-Turn some_thread (step reached next) = Step-Turn (Reach-Turn some_thread reached) next

  -- What is written is the beginning of the picture: whole lines from the first one on, and then columns of
  -- the next line from its first one on.
  unfoldable pub IsBeginning : List (ℕ × ℕ) → Type 0
  IsBeginning output =
      (line : ℕ) × (n : ℕ) × (line ≤ lines) × (n ≤ width) × (output ≡ rows line ++ row line n)

  Turn-IsBeginning : (nthreads : ℕ) {s : State} → Turn lines nthreads s → IsBeginning s.output
  unfolding IsBeginning row
  Turn-IsBeginning nthreads (inl (base, turn, idle)) = (
    base + turn,
    0,
    idle.not_past,
    omega arith,
    idle.written ∙ sym (append-nil (rows (base + turn))),
  )
  Turn-IsBeginning nthreads (inr (base, turn, n, busy)) =
      (base + turn, n, omega (arith, busy.not_past), busy.in_line, busy.written)

  -- With at least one thread and a picture of `lines` lines, in whatever order the threads take their
  -- steps: at every moment what is written is whole lines of the picture in order from the first one on, and then the first columns of the
  -- next line.
  pub Reach-IsBeginning :
      (nthreads : ℕ) {s : State} → 0 < nthreads → Reach lines nthreads s → IsBeginning s.output
  Reach-IsBeginning nthreads some_thread reached =
      Turn-IsBeginning nthreads (Reach-Turn nthreads some_thread reached)

  -- Some thread can take a step.
  abbrev pub CanStep : ℕ → State → Type 0
  CanStep nthreads s = (s' : State) × Step lines nthreads s s'

  less_or_equal : (a b : ℕ) → a ≤ b → (a < b) ⊎ (a ≡ b)
  less_or_equal a b le = ground (arith, le)

  Idle-CanStep :
      (nthreads : ℕ) {base turn : ℕ} {s : State}
      → Idle lines nthreads base turn s
      → base + turn < lines
      → CanStep nthreads s
  Idle-CanStep nthreads {base} {turn} {s} idle more = elim (idle.waiting turn idle.in_ring) [
    | inl at_head ↦ (
      _,
      compute turn (next_line nthreads base turn turn) idle.in_ring at_head
          (omega (arith, next_line-turn lines nthreads base turn, more)),
    )
    | inr (at_wait, small) ↦ (
      _,
      wait turn (next_line nthreads base turn turn) 0 idle.in_ring at_wait
          (ap s.sems (mod_small lines nthreads turn idle.in_ring) ∙ idle.token),
    )
  ]

  Turn-CanStep :
      (nthreads : ℕ) {s : State}
      → Turn lines nthreads s
      → CanStep nthreads s ⊎ (s.output ≡ rows lines)
  Turn-CanStep nthreads (inl (base, turn, idle)) =
      elim (less_or_equal (base + turn) lines idle.not_past) [
        | inl more ↦ inl (Idle-CanStep nthreads idle more)
        | inr all ↦ inr (idle.written ∙ ap rows all)
      ]
  Turn-CanStep nthreads (inr (base, turn, n, busy)) = elim (less_or_equal n width busy.in_line) [
    | inl more ↦ inl (_, print turn (base + turn) n busy.in_ring busy.printing more)
    | inr whole ↦
        inl (
          _,
          post turn (base + turn) busy.in_ring (busy.printing ∙ ap (prints (base + turn)) whole),
        )
  ]

  -- With at least one thread and a picture of `lines` lines, in every state that is reached: some thread can take a step, or all the
  -- lines of the picture are written in order, and nothing after them.
  pub Reach-CanStep :
      (nthreads : ℕ) {s : State}
      → 0 < nthreads
      → Reach lines nthreads s
      → CanStep nthreads s ⊎ (s.output ≡ rows lines)
  Reach-CanStep nthreads some_thread reached =
      Turn-CanStep nthreads (Reach-Turn nthreads some_thread reached)
