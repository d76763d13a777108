-- ===== src/Exer3/Kgarten/Signals/Lively.antt =====
-- Some thread is always awake: the invariant of the condition variable, and the next step.
use cslab_os.Base.{
  ℕ, suc, ◌<◌, ◌≤◌, ◌≡◌, refl, sym, ap, ◌∙◌, subst, Bool, true, false, not, ◌||◌, List, [], ◌∷◌,
  ◌++◌, map, count, arith, ◌⊎◌, inl, inr, Bool-cases,
}
use cslab_os.Exer3.Kgarten.Defs.{Kgarten, Place, Thread, newcomers}
use cslab_os.Exer3.Kgarten.Local.{IsSmall, bit}
use cslab_os.Exer3.Kgarten.Safety.{
  next-ratio, InRange, Reach-IsSmall, IsSound, child_inside, teacher_inside, Reach-IsSound,
}
use cslab_os.Exer3.Kgarten.Signals.{
  Note, awake, Actor, State, sleeps, wake, advance, Step, go, signal, signal_nobody, arrive, start,
  Run, begin, step,
}
use cslab_os.Exer3.Kgarten.Signals.Refines.{thread_of, plain, Run-Reach}
use cslab_os.Exer3.Kgarten.Signals.Asleep.{
  misplaced, at_odds, odd, advance-odd, wakeful, is_teacher, count-thread_of,
}
use cslab_os.Exer3.Kgarten.Signals.Last.{others, count-actors, last_awake}

pub record IsLively (s : State) : Type 0 where
  pub some_awake : 0 < count wakeful s.actors
  pub regular : count odd s.actors ≡ 0
  pub teachers : 0 < count is_teacher s.actors
  pub strict : 0 < s.kg.ratio

pub zero_or_more : (n : ℕ) → (0 < n) ⊎ (n ≡ 0)
zero_or_more n = ground arith

-- The actor `b` took the place of `a`.
IsLively-replace :
    (s : State) (before : List Actor) (a b : Actor) (behind : List Actor) (kg : Kgarten)
    (locked : Bool)
    → s.actors ≡ before ++ a ∷ behind
    → IsLively s
    → kg.ratio ≡ s.kg.ratio
    → b.thread.is_child ≡ a.thread.is_child
    → odd b ≡ false
    → (others wakeful before behind ≡ 0 → wakeful b ≡ true)
    → IsLively (record { kg = kg; locked = locked; actors = before ++ b ∷ behind })
IsLively-replace s before a b behind kg locked e lively same_ratio kind fine stays =
    let at = λ (u : Actor → Bool). ap (count u) e ∙ count-actors u before behind a in
    let after = λ (u : Actor → Bool). count-actors u before behind b in
    record {
      some_awake = elim (zero_or_more (others wakeful before behind)) [
        | inl more ↦ omega (arith, after wakeful, more)
        | inr none ↦ omega (arith, after wakeful, ap bit (stays none))
      ];
      regular = omega (arith, at odd, lively.regular, after odd, ap bit fine);
      teachers =
          omega
            (arith, at is_teacher, lively.teachers, after is_teacher, ap (λ c. bit (not c)) kind);
      strict = omega (arith, lively.strict, same_ratio);
    }

pub odd-at :
    (s : State) (before : List Actor) (a : Actor) (behind : List Actor)
    → s.actors ≡ before ++ a ∷ behind
    → IsLively s
    → odd a ≡ false
odd-at s before a behind e lively = elim (Bool-cases (odd a)) [
  | inl strange ↦ absurd (
      omega
        (arith, lively.regular, ap (count odd) e, count-actors odd before behind a, ap bit strange))
  | inr fine ↦ fine
]

odd-wake :
    (c : Bool) (p : Place) (n : Note)
    → (misplaced c p || at_odds p n) ≡ false
    → (misplaced c p || at_odds p awake) ≡ false
unfolding at_odds
odd-wake c p n fine = ground (arith, fine)

sound-count :
    (u : Thread → Bool) (s : State) (before : List Actor) (a : Actor) (behind : List Actor) {n : ℕ}
    → s.actors ≡ before ++ a ∷ behind
    → n ≡ count u (map thread_of s.actors)
    → n ≡ count (λ (b : Actor). u b.thread) (before ++ a ∷ behind)
sound-count u s before a behind e sound =
    sound ∙ count-thread_of u s.actors ∙ ap (count (λ (b : Actor). u b.thread)) e

IsLively-Step :
    {s s' : State} → Step s s' → IsSmall s.kg → IsSound (plain s) → IsLively s → IsLively s'
unfolding sleeps
IsLively-Step {s} (go before a behind e rested alive own) small sound lively =
    let t = a.thread in
    let right : misplaced t.is_child t.place ≡ false =
      ground (arith, odd-at s before a behind e lively) in
    IsLively-replace s before a (advance a s.kg) behind _ _ e lively
      (next-ratio t.is_child t.place s.kg) refl (advance-odd t.is_child t.place s.kg right)
      (λ none. ap not (
        last_awake before a behind s.kg
          (sound-count child_inside s before a behind e sound.children)
          (sound-count teacher_inside s before a behind e sound.teachers) lively.strict small
          (ap (count odd) (sym e) ∙ lively.regular)
          (subst (λ actors. 0 < count is_teacher actors) e lively.teachers) none))
IsLively-Step {s} (signal before a behind before' u behind' e rings e' dreams) small sound lively =
    let woken =
      IsLively-replace s before a (wake a) behind s.kg s.locked e lively refl refl
        (odd-wake a.thread.is_child a.thread.place a.note (odd-at s before a behind e lively))
        (λ none. refl) in
    let s' : State = record s { actors = before ++ wake a ∷ behind } in
    IsLively-replace s' before' u (wake u) behind' s.kg s.locked e' woken refl refl
      (odd-wake u.thread.is_child u.thread.place u.note (odd-at s' before' u behind' e' woken))
      (λ none. refl)
IsLively-Step {s} (signal_nobody before a behind e rings nobody) small sound lively =
    IsLively-replace s before a (wake a) behind s.kg s.locked e lively refl refl
      (odd-wake a.thread.is_child a.thread.place a.note (odd-at s before a behind e lively))
      (λ none. refl)

arrivals :
    (children : List Bool)
    → (count is_teacher (map arrive (newcomers children))
        ≤ count wakeful (map arrive (newcomers children)))
      × (count odd (map arrive (newcomers children)) ≡ 0)
      × (count is_teacher (map arrive (newcomers children)) ≡ count not children)
unfolding sleeps misplaced at_odds
arrivals [] = (omega arith, refl, refl)
arrivals (true ∷ children) =
    let (more, regular, teachers) = arrivals children in (omega (arith, more), regular, teachers)
arrivals (false ∷ children) =
    let (more, regular, teachers) = arrivals children in
    (omega (arith, more), regular, ap suc teachers)

IsLively-start :
    (ratio : ℕ) (children : List Bool)
    → 0 < ratio
    → 0 < count not children
    → IsLively (start ratio children)
unfolding start sleeps misplaced at_odds
IsLively-start ratio children strict some = record {
  some_awake = omega (arith, (arrivals children).0, (arrivals children).2, some);
  regular = (arrivals children).1;
  teachers = omega (arith, (arrivals children).2, some);
  strict = strict;
}

pub Run-IsLively :
    (ratio : ℕ) (children : List Bool) {s : State}
    → InRange ratio children
    → 0 < ratio
    → 0 < count not children
    → Run ratio children s
    → IsLively s
Run-IsLively ratio children range strict some begin = IsLively-start ratio children strict some
Run-IsLively ratio children range strict some (step run next_step) =
    let reached = Run-Reach ratio children run in
    IsLively-Step next_step (Reach-IsSmall ratio children range reached)
      (Reach-IsSound ratio children range reached)
      (Run-IsLively ratio children range strict some run)
