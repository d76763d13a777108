-- ===== src/Exer3/Simplesync/Ends.antt =====
-- The threads do not block each other for ever.
use cslab_os.Base.{
  ℕ, ◌+◌, ◌<◌, ◌≤◌, ◌≡◌, ◌⊎◌, inl, inr, refl, ap, ◌∙◌, subst, Bool, true, false, Option, none, some,
  Option-cases, arith,
}
use cslab_os.Base.Int.{pos}
use cslab_os.Exer3.Simplesync.{
  Sync, atomic, mutex, Place, head, locked, stored, loaded, State, move, Step, change, lock, load,
  store, unlock, Reach, begin, step,
}
use cslab_os.Exer3.Simplesync.Safe.{Counted, move-all, Reach-Counted, Reach-zero}

abbrev Bounded : ℕ → Place → Type 0
Bounded n (head i) = i ≤ n
Bounded n (locked i) = i < n
Bounded n (stored i) = i < n
Bounded n (loaded i v) = i < n

abbrev Inside : Place → Type 0
Inside (head i) = ⊥
Inside (locked i) = Unit
Inside (stored i) = Unit
Inside (loaded i v) = Unit

-- No loop runs too often, and the owner of the mutex is inside.
record Placed (n : ℕ) (s : State) : Type 0 where
  bounded : (t : Bool) → Bounded n (s.places t)
  inside : (t : Bool) → s.owner ≡ some t → Inside (s.places t)

Bounded-move :
    (n : ℕ) (t : Bool) (p : Place) (places : Bool → Place)
    → ((t' : Bool) → Bounded n (places t'))
    → Bounded n p
    → (t' : Bool) → Bounded n (move t p places t')
Bounded-move n t p places before here =
    move-all (λ t'. Bounded n) t p places here (λ t' other. before t')

Inside-move :
    (owner : Option Bool) (t : Bool) (p : Place) (places : Bool → Place)
    → ((t' : Bool) → owner ≡ some t' → Inside (places t'))
    → Inside p
    → (t' : Bool) → owner ≡ some t'
    → Inside (move t p places t')
Inside-move owner t p places before here =
    move-all (λ t' place. owner ≡ some t' → Inside place) t p places (λ own. here)
      (λ t' other. before t')

Step-Placed :
    {n : ℕ} {sync : Sync} {s s' : State}
    → Counted sync s
    → Placed n s
    → Step n s sync s'
    → Placed n s'
Step-Placed {n} {s = s} c placed (change t i here small) =
    let free = c.unused refl in
    record {
      bounded = Bounded-move n t (head (i + 1)) s.places placed.bounded (omega (arith, small));
      inside = λ t' own. absurd cc;
    }
Step-Placed {n} {s = s} c placed (lock t i here small free) = record {
  bounded = Bounded-move n t (locked i) s.places placed.bounded small;
  inside =
      move-all (λ t' p. some t ≡ some t' → Inside p) t (locked i) s.places (λ own. tt)
        (λ t' other own. absurd (other cc));
}
Step-Placed {n} {s = s} c placed (load t i here) = record {
  bounded =
      Bounded-move n t (loaded i s.val) s.places placed.bounded
        (subst (Bounded n) here (placed.bounded t));
  inside = Inside-move s.owner t (loaded i s.val) s.places placed.inside tt;
}
Step-Placed {n} {s = s} c placed (store t i v here) = record {
  bounded =
      Bounded-move n t (stored i) s.places placed.bounded
        (subst (Bounded n) here (placed.bounded t));
  inside = Inside-move s.owner t (stored i) s.places placed.inside tt;
}
Step-Placed {n} {s = s} c placed (unlock t i here) =
    let small : i < n = subst (Bounded n) here (placed.bounded t) in
    record {
      bounded = Bounded-move n t (head (i + 1)) s.places placed.bounded (omega (arith, small));
      inside = λ t' own. absurd cc;
    }

Reach-Placed : {n : ℕ} {sync : Sync} {s : State} → Reach n sync s → Placed n s
Reach-Placed begin = record { bounded = λ t. omega arith; inside = λ t own. absurd cc }
Reach-Placed (step reached next) = Step-Placed (Reach-Counted reached) (Reach-Placed reached) next

-- Some thread can take a step.
abbrev pub CanStep : ℕ → Sync → State → Type 0
CanStep n sync s = (s' : State) × Step n s sync s'

-- Both loops have run `n` times, and no change was lost.
abbrev pub Finished : ℕ → State → Type 0
Finished n s = (s.places true ≡ head n) × (s.places false ≡ head n) × (s.val ≡ pos 0)

-- A thread at the head of its loop, while the mutex is free.
head-CanStep :
    {n : ℕ} (sync : Sync) {s : State} (t : Bool) (i : ℕ)
    → s.owner ≡ none
    → s.places t ≡ head i
    → i < n
    → CanStep n sync s
head-CanStep atomic t i free here small = (_, change t i here small)
head-CanStep mutex t i free here small = (_, lock t i here small free)

Inside-CanStep :
    {n : ℕ} {s : State} (t : Bool) (p : Place) → s.places t ≡ p → Inside p → CanStep n mutex s
Inside-CanStep t (head i) here inside = absurd inside
Inside-CanStep t (locked i) here inside = (_, load t i here)
Inside-CanStep t (stored i) here inside = (_, unlock t i here)
Inside-CanStep t (loaded i v) here inside = (_, store t i v here)

owned-CanStep :
    {n : ℕ} (sync : Sync) {s : State} (t : Bool)
    → Counted sync s
    → s.owner ≡ some t
    → Inside (s.places t)
    → CanStep n sync s
owned-CanStep atomic t c own inside = let free = c.unused refl in absurd cc
owned-CanStep mutex {s} t c own inside = Inside-CanStep t (s.places t) refl inside

less_or_equal : (a b : ℕ) → a ≤ b → (a < b) ⊎ (a ≡ b)
less_or_equal a b le = ground (arith, le)

-- While the mutex is free both threads are at the head of their loops.
free-CanStep :
    {n : ℕ} {sync : Sync} {s : State}
    → Reach n sync s
    → s.owner ≡ none
    → CanStep n sync s ⊎ Finished n s
free-CanStep {n} {sync} {s} reached free =
    let at_head = λ (t : Bool). (Reach-Counted reached).alone t (λ e. absurd cc) in
    let within = λ (t : Bool). subst (Bounded n) (at_head t).1 ((Reach-Placed reached).bounded t) in
    elim (less_or_equal (at_head true).0 n (within true)) [
      | inl more ↦ inl (head-CanStep sync true (at_head true).0 free (at_head true).1 more)
      | inr all_up ↦ elim (less_or_equal (at_head false).0 n (within false)) [
        | inl more ↦ inl (head-CanStep sync false (at_head false).0 free (at_head false).1 more)
        | inr all_down ↦
            let up = (at_head true).1 ∙ ap head all_up in
            let down = (at_head false).1 ∙ ap head all_down in
            inr (up, down, Reach-zero reached up down)
      ]
    ]

-- In whatever order the threads take their steps, with atomic operations and with the mutex: in every
-- state that is reached some thread can take a step, or both loops have run `n` times and the variable
-- is 0.
pub Reach-val : {n : ℕ} {sync : Sync} {s : State} → Reach n sync s → CanStep n sync s ⊎ Finished n s
Reach-val {n} {sync} {s} reached = elim (Option-cases s.owner) [
  | inl free ↦ free-CanStep reached free
  | inr (t, own) ↦
      inl (owned-CanStep sync t (Reach-Counted reached) own ((Reach-Placed reached).inside t own))
]
