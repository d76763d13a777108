-- ===== src/Exer3/Kgarten/Signals.antt =====
-- exer3/kgarten/kgarten.c with its condition variable: a thread in `pthread_cond_wait` sleeps until a
-- `pthread_cond_signal` wakes it, and each signal wakes one sleeping thread if there is one.
use cslab_os.Base.{ℕ, ◌≡◌, Bool, true, false, List, ◌∷◌, ◌++◌, if◌then◌else◌, map, count}
use cslab_os.Exer3.Kgarten.Defs.{
  Kgarten, Place, enter_wait, exit_wait, entered, exited, next, holds, Thread, newcomers,
}
use cslab_os.Exer3.Kgarten.Local.{has_failed}
pub mod Refines
pub mod Asleep
pub mod Last
pub mod Lively
pub mod Progress
mod Tests

-- `due` is between the unlock and the call of `pthread_cond_signal` after it.
pub data Note : Type 0 where
  awake due asleep : Note

pub record Actor : Type 0 where
  pub thread : Thread
  pub note : Note

pub record State : Type 0 where
  pub kg : Kgarten
  pub locked : Bool
  pub actors : List Actor

unfoldable pub waits : Place → Bool
waits enter_wait = true
waits exit_wait = true
waits _ = false

-- The unlocks that a signal follows: in `child_enter` and in `teacher_exit`.
unfoldable pub signals : Bool → Place → Bool
signals true entered = true
signals false exited = true
signals _ _ = false

-- The note of a thread that came from one place to another.
unfoldable pub note_after : Bool → Place → Place → Note
note_after child old new = if waits new then asleep else if signals child old then due else awake

unfoldable pub sleeps : Note → Bool
sleeps asleep = true
sleeps _ = false

abbrev pub sleeper : Actor → Bool
sleeper a = sleeps a.note

abbrev pub wake : Actor → Actor
wake a = record a { note = awake }

abbrev pub advance : Actor → Kgarten → Actor
advance a kg = record {
  thread = record a.thread { place = (next a.thread.is_child a.thread.place kg).1 };
  note = note_after a.thread.is_child a.thread.place (next a.thread.is_child a.thread.place kg).1;
}

abbrev pub move_actor : State → List Actor → Actor → List Actor → State
move_actor s before a behind = record {
  kg = (next a.thread.is_child a.thread.place s.kg).0;
  locked = holds (next a.thread.is_child a.thread.place s.kg).1;
  actors = before ++ advance a s.kg ∷ behind;
}

pub data Step (s : State) : State → Type 0 where
  -- As `pick` in Defs. A thread that was woken takes the mutex again first.
  go :
      (before : List Actor) (a : Actor) (behind : List Actor)
      → s.actors ≡ before ++ a ∷ behind
      → a.note ≡ awake
      → has_failed a.thread.place ≡ false
      → holds a.thread.place ≡ s.locked
      → Step s (move_actor s before a behind)
  -- The signal of `a` wakes `u`.
  signal :
      (before : List Actor) (a : Actor) (behind : List Actor) (before' : List Actor) (u : Actor)
      (behind' : List Actor)
      → s.actors ≡ before ++ a ∷ behind
      → a.note ≡ due
      → before ++ wake a ∷ behind ≡ before' ++ u ∷ behind'
      → u.note ≡ asleep
      → Step s (record s { actors = before' ++ wake u ∷ behind' })
  signal_nobody :
      (before : List Actor) (a : Actor) (behind : List Actor)
      → s.actors ≡ before ++ a ∷ behind
      → a.note ≡ due
      → count sleeper s.actors ≡ 0
      → Step s (record s { actors = before ++ wake a ∷ behind })

abbrev pub arrive : Thread → Actor
arrive t = record { thread = t; note = awake }

unfoldable pub start : ℕ → List Bool → State
start ratio children = record {
  kg = record { vt = 0; vc = 0; ratio = ratio };
  locked = false;
  actors = map arrive (newcomers children);
}

pub data Run (ratio : ℕ) (children : List Bool) : State → Type 0 where
  begin : Run ratio children (start ratio children)
  step : {s s' : State} → Run ratio children s → Step s s' → Run ratio children s'
