-- ===== src/Exer3/Kgarten/Safety.antt =====
-- No interleaving breaks the rule of the kindergarten.
use native.Mathlib.Nat.{mul-le-mul_left}
use cslab_os.Base.{
  length, length-append, suc, ◌∙◌, ◌^◌, ℕ, ◌+◌, ◌-◌, ◌*◌, ◌≤◌, ◌<◌, ◌≡◌, refl, Bool, true, false,
  List, [], ◌∷◌, ◌++◌, arith, count, count-append, Bool-cases, inl, inr, ap, not, ◌&&◌, subst, sym,
}
use cslab_os.Exer3.Kgarten.Defs.{
  Kgarten, Place, enter_go, exit_go, Thread, System, next, holds, move, Step, pick, newcomers, init,
  Reach, start, later,
}
use cslab_os.Exer3.Kgarten.Local.{
  IsSmall, counts, may_enter, may_exit, has_failed, bit, Fits, Fits-next,
}

abbrev pub child_inside : Thread → Bool
child_inside t = t.is_child && counts t.place

abbrev pub teacher_inside : Thread → Bool
teacher_inside t = not t.is_child && counts t.place

abbrev pub has_mutex : Thread → Bool
has_mutex t = holds t.place

abbrev child_passed : Thread → Bool
child_passed t = may_enter t.is_child t.place

abbrev teacher_passed : Thread → Bool
teacher_passed t = may_exit t.is_child t.place

abbrev pub failed_thread : Thread → Bool
failed_thread t = has_failed t.place

-- The counters tell how many children and teachers are inside, the mutex how many threads have it,
-- the children are watched, also after each update that a thread is about to make, and `verify` has
-- failed in no thread.
pub record IsSound (s : System) : Type 0 where
  pub children : s.kg.vc ≡ count child_inside s.threads
  pub teachers : s.kg.vt ≡ count teacher_inside s.threads
  pub one : bit s.locked ≡ count has_mutex s.threads
  pub watched : s.kg.vc ≤ s.kg.ratio * s.kg.vt
  pub room : 0 < count child_passed s.threads → s.kg.vc + 1 ≤ s.kg.ratio * s.kg.vt
  pub spare : 0 < count teacher_passed s.threads → s.kg.vc ≤ s.kg.ratio * (s.kg.vt - 1)
  pub fine : count failed_thread s.threads ≡ 0

count_mono :
    (u v : Thread → Bool) (ts : List Thread)
    → ((t : Thread) → u t ≡ true → v t ≡ true)
    → count u ts ≤ count v ts
count_mono u v [] incl = omega arith
count_mono u v (t ∷ ts) incl = ground (arith, incl t, count_mono u v ts incl)

child_passed-has_mutex : (t : Thread) → child_passed t ≡ true → has_mutex t ≡ true
unfolding may_enter holds
child_passed-has_mutex t e = go t.is_child t.place e
  where
    go : (c : Bool) (p : Place) → may_enter c p ≡ true → holds p ≡ true
    go true enter_go e = refl
    go true _ e = cc
    go false _ e = cc

teacher_passed-has_mutex : (t : Thread) → teacher_passed t ≡ true → has_mutex t ≡ true
unfolding may_exit holds
teacher_passed-has_mutex t e = go t.is_child t.place e
  where
    go : (c : Bool) (p : Place) → may_exit c p ≡ true → holds p ≡ true
    go false exit_go e = refl
    go false _ e = cc
    go true _ e = cc

module _ (before behind : List Thread) where
  abbrev others : (Thread → Bool) → ℕ
  others u = count u before + count u behind

  count-middle :
      (u : Thread → Bool) (t : Thread) → count u (before ++ t ∷ behind) ≡ bit (u t) + others u
  count-middle u t = ground (arith, count-append u before (t ∷ behind))

  others_mono :
      (u v : Thread → Bool) → ((t : Thread) → u t ≡ true → v t ≡ true) → others u ≤ others v
  others_mono u v incl = omega (arith, count_mono u v before incl, count_mono u v behind incl)

  abbrev FitsAmong : Thread → Bool → Kgarten → Type 0
  FitsAmong t locked kg =
      Fits (others child_inside) (others teacher_inside) (others has_mutex) (others child_passed)
        (others teacher_passed) locked t.is_child t.place kg

  Fits-of_IsSound :
      (t : Thread) (kg : Kgarten) (locked : Bool)
      → IsSound (record { kg = kg; locked = locked; threads = before ++ t ∷ behind })
      → FitsAmong t locked kg × (others failed_thread ≡ 0)
  Fits-of_IsSound t kg locked s =
      let c = λ (u : Thread → Bool). count-middle u t in
      (
        record {
          children = omega (arith, s.children, c child_inside);
          teachers = omega (arith, s.teachers, c teacher_inside);
          one = omega (arith, s.one, c has_mutex);
          watched = s.watched;
          room = λ k. s.room (omega (arith, c child_passed));
          spare = λ k. s.spare (omega (arith, c teacher_passed));
          fine = elim (Bool-cases (has_failed t.place)) [
            | inl e ↦ absurd (omega (arith, s.fine, c failed_thread, ap bit e))
            | inr e ↦ e
          ];
        },
        omega (arith, s.fine, c failed_thread),
      )

  IsSound-of_Fits :
      (t : Thread) (kg : Kgarten) (locked : Bool)
      → FitsAmong t locked kg
      → others failed_thread ≡ 0
      → IsSound (record { kg = kg; locked = locked; threads = before ++ t ∷ behind })
  IsSound-of_Fits t kg locked f none_failed =
      let c = λ (u : Thread → Bool). count-middle u t in
      record {
        children = omega (arith, f.children, c child_inside);
        teachers = omega (arith, f.teachers, c teacher_inside);
        one = omega (arith, f.one, c has_mutex);
        watched = f.watched;
        room = λ k. f.room (omega (arith, c child_passed));
        spare = λ k. f.spare (omega (arith, c teacher_passed));
        fine = omega (arith, none_failed, c failed_thread, ap bit f.fine);
      }

  IsSound-move :
      (t : Thread) (kg : Kgarten) (locked : Bool)
      → holds t.place ≡ locked
      → IsSmall kg
      → IsSound (record { kg = kg; locked = locked; threads = before ++ t ∷ behind })
      → IsSound (
          move
            (record { kg = kg; locked = locked; threads = before ++ t ∷ behind })
            before
            t
            behind)
  IsSound-move t kg locked own small s =
      let (f, none_failed) = Fits-of_IsSound t kg locked s in
      let r = next t.is_child t.place kg in
      IsSound-of_Fits (record t { place = r.1 }) r.0 (holds r.1)
        (Fits-next _ _ _ _ _ locked (others_mono child_passed has_mutex child_passed-has_mutex)
          (others_mono teacher_passed has_mutex teacher_passed-has_mutex) t.is_child t.place kg own
          small f)
        none_failed

IsSound-Step : {s s' : System} → Step s s' → IsSmall s.kg → IsSound s → IsSound s'
IsSound-Step {s} (pick before t behind e own) small sound =
    IsSound-move before behind t s.kg s.locked own small
      (subst (λ ts. IsSound (record { kg = s.kg; locked = s.locked; threads = ts })) e sound)

count-newcomers :
    (u : Thread → Bool) (cs : List Bool)
    → ((c : Bool) → u (record { is_child = c; place = Place.entering }) ≡ false)
    → count u (newcomers cs) ≡ 0
count-newcomers u [] out = refl
count-newcomers u (c ∷ cs) out = rw (out c) (count-newcomers u cs out)

IsSound-init : (ratio : ℕ) (cs : List Bool) → IsSound (init ratio cs)
unfolding counts may_enter may_exit has_failed holds
IsSound-init ratio cs = record {
  children = sym (count-newcomers child_inside cs (λ c. ground arith));
  teachers = sym (count-newcomers teacher_inside cs (λ c. ground arith));
  one = sym (count-newcomers has_mutex cs (λ c. refl));
  watched = omega arith;
  room = λ k. absurd (omega (arith, count-newcomers child_passed cs (λ c. ground arith)));
  spare = λ k. absurd (omega (arith, count-newcomers teacher_passed cs (λ c. ground arith)));
  fine = count-newcomers failed_thread cs (λ c. refl);
}

-- The threads and the ratio stay as they are.
pub next-ratio : (c : Bool) (p : Place) (kg : Kgarten) → (next c p kg).0.ratio ≡ kg.ratio
unfolding next
next-ratio true Place.entering kg = refl
next-ratio true _ kg = refl
next-ratio false Place.entering kg = refl
next-ratio false _ kg = refl

Reach-ratio : (ratio : ℕ) (cs : List Bool) {s : System} → Reach ratio cs s → s.kg.ratio ≡ ratio
Reach-ratio ratio cs start = refl
Reach-ratio ratio cs (later {s} r (pick before t behind e own)) =
    next-ratio t.is_child t.place s.kg ∙ Reach-ratio ratio cs r

length-newcomers : (cs : List Bool) → length (newcomers cs) ≡ length cs
length-newcomers [] = refl
length-newcomers (c ∷ cs) = ap suc (length-newcomers cs)

Reach-length :
    (ratio : ℕ) (cs : List Bool) {s : System} → Reach ratio cs s → length s.threads ≡ length cs
Reach-length ratio cs start = length-newcomers cs
Reach-length ratio cs (later {s} r (pick before t behind e own)) = omega (
  arith,
  length-append before (t ∷ behind),
  length-append before (record t { place = (next t.is_child t.place s.kg).1 } ∷ behind),
  ap length e,
  Reach-length ratio cs r,
)

count-length : (u : Thread → Bool) (ts : List Thread) → count u ts ≤ length ts
count-length u [] = omega arith
count-length u (t ∷ ts) = ground (arith, count-length u ts)

-- Neither the number of the threads nor its product with the ratio is beyond an `int`.
pub record InRange (ratio : ℕ) (cs : List Bool) : Type 0 where
  pub threads_in_int : length cs + 1 < 2 ^ 31
  pub product_in_int : ratio * length cs < 2 ^ 31

Reach-IsSmall_sound :
    (ratio : ℕ) (cs : List Bool) {s : System}
    → InRange ratio cs
    → Reach ratio cs s
    → IsSound s
    → IsSmall s.kg
Reach-IsSmall_sound ratio cs {s} range r sound =
    let all = Reach-length ratio cs r in
    let in_all : s.kg.vt ≤ length cs =
      omega (arith, sound.teachers, count-length teacher_inside s.threads, all) in
    record {
      room_in_int =
          omega
            (arith, sound.children, count-length child_inside s.threads, all, range.threads_in_int);
      product_in_int =
          subst (λ n. n * s.kg.vt < 2 ^ 31) (sym (Reach-ratio ratio cs r))
            (omega (arith, mul-le-mul_left ratio in_all, range.product_in_int));
    }

-- When neither the number of the threads plus 1 nor its product with the ratio is beyond an `int`,
-- whatever the threads are and in whatever order they take their turns: there are never more children
-- inside than `ratio` times the teachers inside, the counters say how many of each are inside, at most
-- one thread has the mutex, and `verify` fails in no thread.
pub Reach-IsSound :
    (ratio : ℕ) (cs : List Bool) {s : System} → InRange ratio cs → Reach ratio cs s → IsSound s
Reach-IsSound ratio cs range start = IsSound-init ratio cs
Reach-IsSound ratio cs range (later r st) =
    let sound = Reach-IsSound ratio cs range r in
    IsSound-Step st (Reach-IsSmall_sound ratio cs range r sound) sound

pub Reach-IsSmall :
    (ratio : ℕ) (cs : List Bool) {s : System} → InRange ratio cs → Reach ratio cs s → IsSmall s.kg
Reach-IsSmall ratio cs range r =
    Reach-IsSmall_sound ratio cs range r (Reach-IsSound ratio cs range r)
