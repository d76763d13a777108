-- ===== src/Exer3/Kgarten/Signals/Last.antt =====
-- The last thread that is awake, while all others sleep.
use native.Mathlib.Nat.{mul-pos}
use cslab_os.Base.{
  ℕ, ◌+◌, ◌*◌, ◌<◌, ◌≡◌, ◌≢◌, refl, ap, Bool, true, false, not, List, ◌∷◌, ◌++◌, count,
  count-append, arith, inl, inr, Bool-cases, ◌∙◌,
}
use cslab_os.Exer3.Kgarten.Defs.{Kgarten, is_full, is_needed, next}
use cslab_os.Exer3.Kgarten.Local.{counts, bit, IsSmall, is_full-small, is_needed-small}
use cslab_os.Exer3.Kgarten.Signals.{Actor, note_after, sleeps}
use cslab_os.Exer3.Kgarten.Signals.Asleep.{
  odd, child, teacher, note_after-FallsAsleep, wakeful, is_teacher, child_in, teacher_in,
  count-sleeper,
}

module _ (u : Actor → Bool) (before behind : List Actor) where
  abbrev pub others : ℕ
  others = count u before + count u behind

  pub count-actors : (a : Actor) → count u (before ++ a ∷ behind) ≡ bit (u a) + others
  count-actors a = ground (arith, count-append u before (a ∷ behind))

nobody_full :
    (kg : Kgarten) → IsSmall kg → kg.vc ≡ 0 → 0 < kg.vt → 0 < kg.ratio → is_full kg ≡ false
nobody_full kg small none some strict =
    let filled : 0 < kg.ratio * kg.vt = mul-pos strict some in
    is_full-small kg small ∙ ground (arith, none, filled)

nobody_needed : (kg : Kgarten) → IsSmall kg → kg.vc ≡ 0 → 0 < kg.vt → is_needed kg ≡ false
nobody_needed kg small none some = is_needed-small kg small some ∙ ground (arith, none)

no_both : {b : Bool} → b ≡ false → b ≢ true
no_both e f = cc

in_child :
    (a : Actor) → a.thread.is_child ≡ true → counts a.thread.place ≡ false → child_in a ≡ false
in_child a little out = rw (little, out) refl

in_teacher : (a : Actor) → a.thread.is_child ≡ false → child_in a ≡ false
in_teacher a big = rw big refl

teacher_counts :
    (a : Actor) → a.thread.is_child ≡ false → counts a.thread.place ≡ true → teacher_in a ≡ true
teacher_counts a big inside = rw (big, inside) refl

-- The last thread that is awake does not go to sleep.
pub last_awake :
    (before : List Actor) (a : Actor) (behind : List Actor) (kg : Kgarten)
    → kg.vc ≡ count child_in (before ++ a ∷ behind)
    → kg.vt ≡ count teacher_in (before ++ a ∷ behind)
    → 0 < kg.ratio
    → IsSmall kg
    → count odd (before ++ a ∷ behind) ≡ 0
    → 0 < count is_teacher (before ++ a ∷ behind)
    → others wakeful before behind ≡ 0
    → sleeps
        (note_after a.thread.is_child a.thread.place (next a.thread.is_child a.thread.place kg).1)
      ≡ false
last_awake before a behind kg vc vt strict small regular teachers none =
    let t = a.thread in
    let c = λ (u : Actor → Bool). count-actors u before behind a in
    let (no_child, as_teachers) =
      count-sleeper before (omega (arith, none)) (omega (arith, regular, c odd)) in
    let (no_child', as_teachers') =
      count-sleeper behind (omega (arith, none)) (omega (arith, regular, c odd)) in
    elim (Bool-cases (
      sleeps (
        note_after a.thread.is_child a.thread.place
          (next a.thread.is_child a.thread.place kg).1))) [
            | inr h ↦ h
            | inl h ↦
                elim (note_after-FallsAsleep t.is_child t.place kg (ground (arith, regular, c odd))
                  h) [
                    | child little out full ↦
                        let none_in : kg.vc ≡ 0 = omega (
                          arith,
                          vc,
                          c child_in,
                          ap bit (in_child a little out),
                          no_child,
                          no_child',
                        ) in
                        let some_in : 0 < kg.vt = omega (
                          arith,
                          vt,
                          c teacher_in,
                          as_teachers,
                          as_teachers',
                          teachers,
                          c is_teacher,
                          ap bit (ap not little),
                        ) in
                        absurd (no_both (nobody_full kg small none_in some_in strict) full)
                    | teacher big inside needed ↦
                        let none_in : kg.vc ≡ 0 =
                          omega (
                            arith,
                            vc,
                            c child_in,
                            ap bit (in_teacher a big),
                            no_child,
                            no_child',
                          ) in
                        let some_in : 0 < kg.vt =
                          omega (arith, vt, c teacher_in, ap bit (teacher_counts a big inside)) in
                        absurd (no_both (nobody_needed kg small none_in some_in) needed)
                  ]
          ]
