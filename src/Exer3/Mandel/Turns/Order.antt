-- ===== src/Exer3/Mandel/Turns/Order.antt =====
-- Whose turn it is: the invariant of the threads, and how each step keeps it.
use native.Mathlib.Nat.{mod-eq_of_lt}
use cslab_os.Base.{
  ℕ, suc, ◌+◌, ◌%◌, ◌<◌, ◌≤◌, ◌≡◌, ◌≢◌, ap, sym, ◌∙◌, ltb, [], ◌∷◌, ◌++◌, if◌then◌else◌, ◌⊎◌, inl,
  inr, arith, append-nil, append_assoc, subst,
}
use cslab_os.Exer3.Mandel.Turns.{width, Place, head, waits, prints, State, update}
use cslab_os.Exer3.Mandel.Turns.Rows.{
  row, rows, row-next, rows-next, update-here, update-other, same_or_other,
}

-- A line, in the order in which the threads write: those before `turn` are a round ahead.
abbrev pub next_line : (nthreads base turn j : ℕ) → ℕ
next_line nthreads base turn j = if ltb j turn then base + nthreads + j else base + j

module _ (lines : ℕ) where
  -- A thread that does not print, with its next line.
  abbrev pub Waiting : Place → ℕ → Type 0
  Waiting p i = (p ≡ head i) ⊎ ((p ≡ waits i) × (i < lines))

  pub Waiting-prints : {p : Place} {i line n : ℕ} → Waiting p i → p ≢ prints line n
  Waiting-prints (inl at_head) e = cc
  Waiting-prints (inr (at_wait, small)) e = cc

  head-prints : {i line n : ℕ} → head i ≢ prints line n
  head-prints e = cc

  pub Waiting-head : {p : Place} {i j : ℕ} → Waiting p i → p ≡ head j → i ≡ j
  Waiting-head (inl at_head) e = cc
  Waiting-head (inr (at_wait, small)) e = cc

  Waiting-waits : {p : Place} {i j : ℕ} → Waiting p i → p ≡ waits j → (i ≡ j) × (i < lines)
  Waiting-waits (inl at_head) e = absurd cc
  Waiting-waits (inr (at_wait, small)) e = (cc, small)

  -- Line `base + turn` is the next to be written or is being written, by thread `turn`; the threads before
  -- it are a round ahead.
  pub record Idle (nthreads base turn : ℕ) (s : State) : Type 0 where
    pub in_ring : turn < nthreads
    pub not_past : base + turn ≤ lines
    pub waiting : (j : ℕ) → j < nthreads → Waiting (s.places j) (next_line nthreads base turn j)
    pub token : s.sems turn ≡ 1
    pub no_other : (j : ℕ) → j < nthreads → j ≢ turn → s.sems j ≡ 0
    pub written : s.output ≡ rows (base + turn)

  pub record Busy (nthreads base turn n : ℕ) (s : State) : Type 0 where
    pub in_ring : turn < nthreads
    pub not_past : base + turn < lines
    pub in_line : n ≤ width
    pub printing : s.places turn ≡ prints (base + turn) n
    pub waiting :
        (j : ℕ) → j < nthreads → j ≢ turn → Waiting (s.places j) (next_line nthreads base turn j)
    pub no_token : (j : ℕ) → j < nthreads → s.sems j ≡ 0
    pub written : s.output ≡ rows (base + turn) ++ row (base + turn) n

  abbrev pub Turn : ℕ → State → Type 0
  Turn nthreads s =
      ((base : ℕ) × (turn : ℕ) × Idle nthreads base turn s)
      ⊎ ((base : ℕ) × (turn : ℕ) × (n : ℕ) × Busy nthreads base turn n s)

  module _ (nthreads : ℕ) where
    pub mod_small : (i : ℕ) → i < nthreads → i % nthreads ≡ i
    mod_small i small = mod-eq_of_lt small

    -- The other threads stay as they were when thread `idx` moves.
    Waiting-update :
        (places : ℕ → Place) (idx j line : ℕ) (p : Place)
        → j ≢ idx
        → Waiting (places j) line
        → Waiting (update places idx p j) line
    Waiting-update places idx j line p other at_line =
        subst (λ place. Waiting place line) (sym (update-other places idx p j other)) at_line

    Waiting-compute :
        (places : ℕ → Place) (idx i j line : ℕ)
        → places idx ≡ head i
        → i < lines
        → Waiting (places j) line
        → Waiting (update places idx (waits i) j) line
    Waiting-compute places idx i j line here small at_line = elim (same_or_other j idx) [
      | inl same ↦
          let line_i : line ≡ i = Waiting-head at_line (ap places same ∙ here) in
          inr (
            ap (update places idx (waits i)) same
                ∙ update-here places idx (waits i)
                ∙ ap waits (sym line_i),
            omega (arith, line_i, small),
          )
      | inr other ↦ Waiting-update places idx j line (waits i) other at_line
    ]

    pub next_line-turn : (base turn : ℕ) → next_line nthreads base turn turn ≡ base + turn
    next_line-turn base turn = ground arith

    module _ {base turn : ℕ} {s : State} (idle : Idle nthreads base turn s) where
      pub Idle-compute :
          (idx i : ℕ)
          → s.places idx ≡ head i
          → i < lines
          → Idle nthreads base turn (record s { places = update s.places idx (waits i) })
      Idle-compute idx i here small = record {
        in_ring = idle.in_ring;
        not_past = idle.not_past;
        token = idle.token;
        no_other = idle.no_other;
        written = idle.written;
        waiting =
            λ j in_ring. Waiting-compute s.places idx i j _ here small (idle.waiting j in_ring);
      }

      -- Only the thread with the token gets past `sem_wait`.
      pub Idle-waiter : (idx k : ℕ) → idx < nthreads → s.sems idx ≡ suc k → idx ≡ turn
      Idle-waiter idx k in_ring raised = elim (same_or_other idx turn) [
        | inl same ↦ same
        | inr other ↦ absurd (omega (arith, idle.no_other idx in_ring other, raised))
      ]

      pub Idle-wait :
          (i k : ℕ)
          → s.places turn ≡ waits i
          → s.sems turn ≡ suc k
          → Busy nthreads base turn 0
              (record s { sems = update s.sems turn k; places = update s.places turn (prints i 0) })
      unfolding row
      Idle-wait i k here raised =
          let (line_i, small) = Waiting-waits (idle.waiting turn idle.in_ring) here in
          let line : i ≡ base + turn = sym line_i ∙ next_line-turn base turn in
          record {
            in_ring = idle.in_ring;
            not_past = omega (arith, line, line_i, small);
            in_line = omega arith;
            printing = update-here s.places turn (prints i 0) ∙ ap (λ l. prints l 0) line;
            waiting = λ j in_ring other.
                Waiting-update s.places turn j _ (prints i 0) other (idle.waiting j in_ring);
            no_token = λ j in_ring. elim (same_or_other j turn) [
              | inl same ↦
                  ap (update s.sems turn k) same
                  ∙ update-here s.sems turn k
                  ∙ omega (arith, idle.token, raised)
              | inr other ↦ update-other s.sems turn k j other ∙ idle.no_other j in_ring other
            ];
            written = idle.written ∙ sym (append-nil (rows (base + turn)));
          }

    module _ {base turn n : ℕ} {s : State} (busy : Busy nthreads base turn n s) where
      pub Busy-compute :
          (idx i : ℕ)
          → s.places idx ≡ head i
          → i < lines
          → Busy nthreads base turn n (record s { places = update s.places idx (waits i) })
      Busy-compute idx i here small =
          let apart : turn ≢ idx =
            λ e. head-prints (sym here ∙ ap s.places (sym e) ∙ busy.printing) in
          record {
            in_ring = busy.in_ring;
            not_past = busy.not_past;
            in_line = busy.in_line;
            no_token = busy.no_token;
            written = busy.written;
            printing = update-other s.places idx (waits i) turn apart ∙ busy.printing;
            waiting = λ j in_ring other.
                Waiting-compute s.places idx i j _ here small (busy.waiting j in_ring other);
          }

      -- Only one thread prints.
      pub Busy-printer : (idx i k : ℕ) → idx < nthreads → s.places idx ≡ prints i k → idx ≡ turn
      Busy-printer idx i k in_ring here = elim (same_or_other idx turn) [
        | inl same ↦ same
        | inr other ↦ absurd (Waiting-prints (busy.waiting idx in_ring other) here)
      ]

      pub Busy-print :
          n < width
          → Busy nthreads base turn (n + 1) (record s {
            places = update s.places turn (prints (base + turn) (n + 1));
            output = s.output ++ (base + turn, n) ∷ [];
          })
      Busy-print more = record {
        in_ring = busy.in_ring;
        not_past = busy.not_past;
        in_line = omega (arith, more);
        printing = update-here s.places turn (prints (base + turn) (n + 1));
        waiting = λ j in_ring other.
            Waiting-update s.places turn j _ (prints (base + turn) (n + 1)) other
              (busy.waiting j in_ring other);
        no_token = busy.no_token;
        written =
            ap (λ out. out ++ (base + turn, n) ∷ []) busy.written
            ∙ append_assoc (rows (base + turn)) (row (base + turn) n) ((base + turn, n) ∷ [])
            ∙ ap (λ more_columns. rows (base + turn) ++ more_columns) (row-next (base + turn) n);
      }

      -- The thread that ends its line passes the token on, to the thread of the next line.
      pub Busy-post :
          (base' turn' : ℕ)
          → n ≡ width
          → turn' < nthreads
          → base' + turn' ≡ base + turn + 1
          → ((j : ℕ)
              → j < nthreads
              → j ≢ turn
              → next_line nthreads base' turn' j ≡ next_line nthreads base turn j)
          → next_line nthreads base' turn' turn ≡ base + turn + nthreads
          → Idle nthreads base' turn' (record s {
            sems = update s.sems turn' (suc (s.sems turn'));
            places = update s.places turn (head (base + turn + nthreads));
          })
      Busy-post base' turn' whole in_ring' next others own = record {
        in_ring = in_ring';
        not_past = omega (arith, busy.not_past, next);
        waiting = λ j in_ring. elim (same_or_other j turn) [
          | inl same ↦ inl (
              ap (update s.places turn (head (base + turn + nthreads))) same
              ∙ update-here s.places turn (head (base + turn + nthreads))
              ∙ ap head (sym own ∙ ap (next_line nthreads base' turn') (sym same)))
          | inr other ↦ Waiting-update s.places turn j _ (head (base + turn + nthreads)) other (
              subst (Waiting (s.places j)) (sym (others j in_ring other))
                (busy.waiting j in_ring other))
        ];
        token =
            update-here s.sems turn' (suc (s.sems turn')) ∙ ap suc (busy.no_token turn' in_ring');
        no_other = λ j in_ring other.
            update-other s.sems turn' (suc (s.sems turn')) j other ∙ busy.no_token j in_ring;
        written =
            busy.written
            ∙ ap (λ columns. rows (base + turn) ++ row (base + turn) columns) whole
            ∙ rows-next (base + turn)
            ∙ ap rows (sym next);
      }
