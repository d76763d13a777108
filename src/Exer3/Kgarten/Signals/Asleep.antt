-- ===== src/Exer3/Kgarten/Signals/Asleep.antt =====
-- Which threads sleep, and what is known of the kindergarten when all but one do.
use cslab_os.Base.{
  ◌≡◌, refl, Bool, true, false, not, ◌&&◌, ◌||◌, List, [], ◌∷◌, map, count, arith, inl, inr,
  Bool-cases,
}
use cslab_os.Exer3.Kgarten.Defs.{
  Kgarten, Place, entering, enter_test, enter_wait, enter_go, entered, inside, check_in, checked_in,
  exiting, exit_test, exit_wait, exit_go, exited, outside, check_out, checked_out, failed, is_full,
  is_needed, verify, next, holds, Thread,
}
use cslab_os.Exer3.Kgarten.Local.{counts}
use cslab_os.Exer3.Kgarten.Safety.{child_inside, teacher_inside}
use cslab_os.Exer3.Kgarten.Signals.{
  Note, awake, due, asleep, Actor, waits, signals, note_after, sleeps, sleeper,
}
use cslab_os.Exer3.Kgarten.Signals.Refines.{thread_of}

-- A child that waits as only teachers do, or a teacher as only children do.
unfoldable pub misplaced : Bool → Place → Bool
misplaced true exit_test = true
misplaced true exit_wait = true
misplaced false enter_test = true
misplaced false enter_wait = true
misplaced _ _ = false

unfoldable pub at_odds : Place → Note → Bool
at_odds p awake = false
at_odds p due = holds p
at_odds p asleep = not (waits p)

abbrev pub odd : Actor → Bool
odd a = misplaced a.thread.is_child a.thread.place || at_odds a.thread.place a.note

pub advance-odd :
    (c : Bool) (p : Place) (kg : Kgarten)
    → misplaced c p ≡ false
    → (misplaced c (next c p kg).1 || at_odds (next c p kg).1 (note_after c p (next c p kg).1))
      ≡ false
unfolding misplaced at_odds next note_after waits signals holds verify
advance-odd true entering kg e = refl
advance-odd false entering kg e = refl
advance-odd true enter_test kg e = ground arith
advance-odd false enter_test kg e = cc
advance-odd true enter_wait kg e = refl
advance-odd false enter_wait kg e = cc
advance-odd true enter_go kg e = refl
advance-odd false enter_go kg e = refl
advance-odd true entered kg e = refl
advance-odd false entered kg e = refl
advance-odd true inside kg e = refl
advance-odd false inside kg e = refl
advance-odd true check_in kg e = ground arith
advance-odd false check_in kg e = ground arith
advance-odd true checked_in kg e = refl
advance-odd false checked_in kg e = refl
advance-odd true exiting kg e = refl
advance-odd false exiting kg e = refl
advance-odd true exit_test kg e = cc
advance-odd false exit_test kg e = ground arith
advance-odd true exit_wait kg e = cc
advance-odd false exit_wait kg e = refl
advance-odd true exit_go kg e = refl
advance-odd false exit_go kg e = refl
advance-odd true exited kg e = refl
advance-odd false exited kg e = refl
advance-odd true outside kg e = refl
advance-odd false outside kg e = refl
advance-odd true check_out kg e = ground arith
advance-odd false check_out kg e = ground arith
advance-odd true checked_out kg e = refl
advance-odd false checked_out kg e = refl
advance-odd true failed kg e = refl
advance-odd false failed kg e = refl

-- A thread goes to sleep where it found that it may not go on.
pub data FallsAsleep (c : Bool) (p : Place) (kg : Kgarten) : Type 0 where
  child : c ≡ true → counts p ≡ false → is_full kg ≡ true → FallsAsleep c p kg
  teacher : c ≡ false → counts p ≡ true → is_needed kg ≡ true → FallsAsleep c p kg

pub note_after-FallsAsleep :
    (c : Bool) (p : Place) (kg : Kgarten)
    → misplaced c p ≡ false
    → sleeps (note_after c p (next c p kg).1) ≡ true
    → FallsAsleep c p kg
unfolding misplaced next note_after waits signals sleeps counts verify
note_after-FallsAsleep true enter_test kg e h = child refl refl (ground arith)
note_after-FallsAsleep false exit_test kg e h = teacher refl refl (ground arith)
note_after-FallsAsleep true _ kg e h = absurd (ground arith)
note_after-FallsAsleep false _ kg e h = absurd (ground arith)

-- A sleeping thread counts as inside when it is a teacher.
sleeps-counts :
    (c : Bool) (p : Place) (n : Note)
    → (misplaced c p || at_odds p n) ≡ false
    → sleeps n ≡ true
    → ((c && counts p) ≡ false) × ((not c && counts p) ≡ not c)
unfolding misplaced at_odds waits sleeps counts
sleeps-counts c p awake e h = absurd cc
sleeps-counts c p due e h = absurd cc
sleeps-counts true enter_wait asleep e h = (refl, refl)
sleeps-counts false exit_wait asleep e h = (refl, refl)
sleeps-counts true _ asleep e h = absurd cc
sleeps-counts false _ asleep e h = absurd cc

pub at_odds-holds :
    (c : Bool) (p : Place) (n : Note)
    → (misplaced c p || at_odds p n) ≡ false
    → holds p ≡ true
    → n ≡ awake
unfolding at_odds waits holds
at_odds-holds c p awake e h = refl
at_odds-holds c p due e h = absurd (ground arith)
at_odds-holds c enter_wait asleep e h = absurd cc
at_odds-holds c exit_wait asleep e h = absurd cc
at_odds-holds c _ asleep e h = absurd (ground arith)

abbrev pub wakeful : Actor → Bool
wakeful a = not (sleeper a)

abbrev pub is_teacher : Actor → Bool
is_teacher a = not a.thread.is_child

abbrev pub child_in : Actor → Bool
child_in a = child_inside a.thread

abbrev pub teacher_in : Actor → Bool
teacher_in a = teacher_inside a.thread

pub count-thread_of :
    (u : Thread → Bool) (xs : List Actor) → count u (map thread_of xs) ≡ count (λ a. u a.thread) xs
count-thread_of u [] = refl
count-thread_of u (x ∷ xs) = ground (arith, count-thread_of u xs)

-- Where all sleep, no child is inside and every teacher is.
pub count-sleeper :
    (xs : List Actor)
    → count wakeful xs ≡ 0
    → count odd xs ≡ 0
    → (count child_in xs ≡ 0) × (count teacher_in xs ≡ count is_teacher xs)
count-sleeper [] none regular = (refl, refl)
count-sleeper (a ∷ xs) none regular = elim (Bool-cases (sleeps a.note)) [
  | inl h ↦
      elim (Bool-cases
        (misplaced a.thread.is_child a.thread.place || at_odds a.thread.place a.note)) [
          | inl strange ↦ absurd (ground arith)
          | inr fine ↦
              let (no_child, as_teacher) =
                sleeps-counts a.thread.is_child a.thread.place a.note fine h in
              let (none', regular') = count-sleeper xs (ground arith) (ground arith) in
              rw (no_child, as_teacher, none', regular') (refl, refl)
        ]
  | inr h ↦ absurd (ground arith)
]
