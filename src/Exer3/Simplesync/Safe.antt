-- ===== src/Exer3/Simplesync/Safe.antt =====
-- No change of the variable is lost.
use cslab_os.Base.{
  ℕ, ◌+◌, ◌≡◌, ◌≢◌, ◌⊎◌, inl, inr, refl, ap, ap₂, ◌∙◌, Bool, true, false, Option, none, some, arith,
}
use cslab_os.Base.Int.{ℤ, pos, sub_nat}
use cslab_os.Exer3.Simplesync.{
  Sync, atomic, Place, head, locked, stored, loaded, State, increased, decreased, changed, move,
  Step, change, lock, load, store, unlock, Reach, begin, step,
}

-- How often the thread has changed the variable.
abbrev pub count : Place → ℕ
count (head i) = i
count (locked i) = i
count (stored i) = i + 1
count (loaded i v) = i

increased-sub_nat : (a b : ℕ) → increased (sub_nat a b) ≡ sub_nat (a + 1) b
unfolding increased sub_nat
increased-sub_nat a b = ground arith

decreased-sub_nat : (a b : ℕ) → decreased (sub_nat a b) ≡ sub_nat a (b + 1)
unfolding decreased sub_nat
decreased-sub_nat a b = ground arith

abbrev AtHead : Place → Type 0
AtHead p = (i : ℕ) × (p ≡ head i)

-- The property that `alone` and `fresh` state of a thread.
abbrev Alone : Option Bool → Bool → Place → Type 0
Alone owner t p = owner ≢ some t → AtHead p

abbrev Fresh : ℤ → Bool → Place → Type 0
Fresh val t p = (i : ℕ) (v : ℤ) → p ≡ loaded i v → v ≡ val

-- The variable is what the changes so far make of it, only the owner of the mutex is inside, and what
-- it has loaded is the variable.
pub record Counted (sync : Sync) (s : State) : Type 0 where
  pub counted : s.val ≡ sub_nat (count (s.places true)) (count (s.places false))
  pub alone : (t : Bool) → Alone s.owner t (s.places t)
  pub unused : sync ≡ atomic → s.owner ≡ none
  fresh : (t : Bool) → Fresh s.val t (s.places t)

sub_nat-changed :
    (t : Bool) (places : Bool → Place) (i : ℕ) (p : Place) {v : ℤ}
    → count (places t) ≡ i
    → count p ≡ i + 1
    → v ≡ sub_nat (count (places true)) (count (places false))
    → changed t v ≡ sub_nat (count (move t p places true)) (count (move t p places false))
sub_nat-changed true places i p here next e =
    ap increased e
    ∙ increased-sub_nat (count (places true)) (count (places false))
    ∙ ap (λ a. sub_nat a (count (places false))) (omega (arith, here, next))
sub_nat-changed false places i p here next e =
    ap decreased e
    ∙ decreased-sub_nat (count (places true)) (count (places false))
    ∙ ap (sub_nat (count (places true))) (omega (arith, here, next))

sub_nat-moved :
    (t : Bool) (places : Bool → Place) (p : Place) {v : ℤ}
    → count (places t) ≡ count p
    → v ≡ sub_nat (count (places true)) (count (places false))
    → v ≡ sub_nat (count (move t p places true)) (count (move t p places false))
sub_nat-moved true places p same e = e ∙ ap (λ a. sub_nat a (count (places false))) same
sub_nat-moved false places p same e = e ∙ ap (sub_nat (count (places true))) same

-- A fact of the places that holds of the new place and of the other thread.
pub move-all :
    (Q : Bool → Place → Type 0) (t : Bool) (p : Place) (places : Bool → Place)
    → Q t p
    → ((t' : Bool) → t' ≢ t → Q t' (places t'))
    → (t' : Bool) → Q t' (move t p places t')
move-all Q true p places here others true = here
move-all Q true p places here others false = others false (λ e. cc)
move-all Q false p places here others true = others true (λ e. cc)
move-all Q false p places here others false = here

AtHead-Fresh : {p : Place} (val : ℤ) (t : Bool) → AtHead p → Fresh val t p
AtHead-Fresh val t (j, at_head) i v e = absurd cc

-- A thread that is not at the head of its loop owns the mutex, so the other one is there.
owner_cases : (o : Option Bool) (t : Bool) → (o ≡ some t) ⊎ (o ≢ some t)
owner_cases none t = inr (λ e. cc)
owner_cases (some true) true = inl refl
owner_cases (some true) false = inr (λ e. cc)
owner_cases (some false) true = inr (λ e. cc)
owner_cases (some false) false = inl refl

module _ {sync : Sync} {s : State} (c : Counted sync s) where
  owner-inside : (t : Bool) → (AtHead (s.places t) → ⊥) → s.owner ≡ some t
  owner-inside t inside = elim (owner_cases s.owner t) [
    | inl own ↦ own
    | inr not_own ↦ absurd (inside (c.alone t not_own))
  ]

  others-AtHead : (t : Bool) → s.owner ≡ some t → (t' : Bool) → t' ≢ t → AtHead (s.places t')
  others-AtHead t own t' other = c.alone t' (λ e. other cc)

  not_atomic : (t : Bool) → s.owner ≡ some t → sync ≢ atomic
  not_atomic t own e = let free = c.unused e in absurd cc

  -- The step of the thread that owns the mutex.
  Counted-owner :
      (t : Bool) (p : Place) (val : ℤ)
      → s.owner ≡ some t
      → val ≡ sub_nat (count (move t p s.places true)) (count (move t p s.places false))
      → Fresh val t p
      → Counted sync (record s { val = val; places = move t p s.places })
  Counted-owner t p val own counted' fresh' = record {
    counted = counted';
    alone =
        move-all (Alone s.owner) t p s.places (λ not_own. absurd (not_own own))
          (λ t' other. c.alone t');
    unused = c.unused;
    fresh =
        move-all (Fresh val) t p s.places fresh'
          (λ t' other. AtHead-Fresh val t' (others-AtHead t own t' other));
  }

  Counted-unlock :
      (t : Bool) (i : ℕ)
      → s.places t ≡ stored i
      → s.owner ≡ some t
      → Counted sync (record s { owner = none; places = move t (head (i + 1)) s.places })
  Counted-unlock t i here own = record {
    counted = sub_nat-moved t s.places (head (i + 1)) (ap count here) c.counted;
    alone =
        move-all (Alone none) t (head (i + 1)) s.places (λ not_own. (i + 1, refl))
          (λ t' other not_own. others-AtHead t own t' other);
    unused = λ e. refl;
    fresh =
        move-all (Fresh s.val) t (head (i + 1)) s.places (AtHead-Fresh s.val t (i + 1, refl))
          (λ t' other. AtHead-Fresh s.val t' (others-AtHead t own t' other));
  }

  -- No thread is inside.
  Counted-lock :
      (t : Bool) (i : ℕ)
      → s.places t ≡ head i
      → s.owner ≡ none
      → sync ≢ atomic
      → Counted sync (record s { owner = some t; places = move t (locked i) s.places })
  Counted-lock t i here free with_mutex = record {
    counted = sub_nat-moved t s.places (locked i) (ap count here) c.counted;
    alone =
        move-all (Alone (some t)) t (locked i) s.places (λ not_own. absurd (not_own refl))
          (λ t' other not_own. c.alone t' (λ e. absurd cc));
    unused = λ e. absurd (with_mutex e);
    fresh =
        move-all (Fresh s.val) t (locked i) s.places (λ j v e. absurd cc)
          (λ t' other. AtHead-Fresh s.val t' (c.alone t' (λ e. absurd cc)));
  }

Step-Counted :
    {n : ℕ} {sync : Sync} {s s' : State} → Counted sync s → Step n s sync s' → Counted sync s'
Step-Counted {s = s} c (change t i here small) =
    let free = c.unused refl in
    record {
      counted = sub_nat-changed t s.places i (head (i + 1)) (ap count here) refl c.counted;
      alone =
          move-all (Alone s.owner) t (head (i + 1)) s.places (λ not_own. (i + 1, refl))
            (λ t' other. c.alone t');
      unused = c.unused;
      fresh =
          move-all (Fresh (changed t s.val)) t (head (i + 1)) s.places
            (AtHead-Fresh (changed t s.val) t (i + 1, refl))
            (λ t' other. AtHead-Fresh (changed t s.val) t' (c.alone t' (λ e. absurd cc)));
    }
Step-Counted c (lock t i here small free) = Counted-lock c t i here free (λ e. cc)
Step-Counted {s = s} c (load t i here) =
    Counted-owner c t (loaded i s.val) s.val (owner-inside c t (λ (j, at_head). absurd cc))
      (sub_nat-moved t s.places (loaded i s.val) (ap count here) c.counted) (λ j v e. cc)
Step-Counted {s = s} c (store t i v here) =
    Counted-owner c t (stored i) (changed t v) (owner-inside c t (λ (j, at_head). absurd cc))
      (sub_nat-changed t s.places i (stored i) (ap count here) refl
        (c.fresh t i v here ∙ c.counted))
      (λ j w e. absurd cc)
Step-Counted c (unlock t i here) =
    Counted-unlock c t i here (owner-inside c t (λ (j, at_head). absurd cc))

pub Reach-Counted : {n : ℕ} {sync : Sync} {s : State} → Reach n sync s → Counted sync s
unfolding sub_nat
Reach-Counted begin = record {
  counted = refl;
  alone = λ t not_own. (0, refl);
  unused = λ e. refl;
  fresh = λ t i v e. absurd cc;
}
Reach-Counted (step reached next) = Step-Counted (Reach-Counted reached) next

sub_nat_self : (n : ℕ) → sub_nat n n ≡ pos 0
unfolding sub_nat
sub_nat_self n = ground arith

-- In whatever order the threads take their steps, with atomic operations and with the mutex: once both
-- loops have run `n` times, the variable is 0.
pub Reach-zero :
    {n : ℕ} {sync : Sync} {s : State}
    → Reach n sync s
    → s.places true ≡ head n
    → s.places false ≡ head n
    → s.val ≡ pos 0
Reach-zero {n} {sync} {s} reached increased_all decreased_all =
    (Reach-Counted reached).counted
    ∙ ap₂ sub_nat (ap count increased_all) (ap count decreased_all)
    ∙ sub_nat_self n
