-- ===== src/Exer3/Kgarten/Defs.antt =====
-- exer3/kgarten/kgarten.c: the threads as program counters that take turns under one mutex.
use cslab_os.Base.{
  ℕ, ◌+◌, ◌-◌, ◌*◌, ◌≡◌, Bool, true, false, ◌==◌, List, ◌∷◌, ◌++◌, if◌then◌else◌, map,
}
use cslab_os.Base.Int.{pos, negate, to_int, greater}

-- `vt` and `vc` are the teachers and the children inside. They go up and down by one, and stay between 0
-- and the number of the threads, which is an `int`.
pub record Kgarten : Type 0 where
  pub vt : ℕ
  pub vc : ℕ
  pub ratio : ℕ

-- Where a thread stands in `thread_start_fn` and the functions that this calls. `enter_wait` and
-- `exit_wait` are in `pthread_cond_wait`; `failed` is after `bad_thing`.
pub data Place : Type 0 where
  entering enter_test enter_wait enter_go entered : Place
  inside check_in checked_in : Place
  exiting exit_test exit_wait exit_go exited : Place
  outside check_out checked_out failed : Place

-- The test of `child_enter`: vc + 1 > ratio * vt, on `int`s of 32 bits that wrap around.
unfoldable pub is_full : Kgarten → Bool
is_full kg = greater (to_int (pos (kg.vc + 1))) (to_int (pos (kg.ratio * kg.vt)))

-- The test of `teacher_exit`: vc > ratio * (vt - 1)
unfoldable pub is_needed : Kgarten → Bool
is_needed kg =
    greater (to_int (pos kg.vc))
      (to_int (if kg.vt == 0 then negate kg.ratio else pos (kg.ratio * (kg.vt - 1))))

-- The test of `verify`: c > t * r
unfoldable pub is_bad : Kgarten → Bool
is_bad kg = greater (to_int (pos kg.vc)) (to_int (pos (kg.vt * kg.ratio)))

unfoldable pub verify : Place → Kgarten → Place
verify ok kg = if is_bad kg then failed else ok

-- One step of a thread, between two uses of the mutex or the shared counters. A thread that waits
-- may wake at any time, as POSIX allows, and tests again. The argument tells whether it is a child.
unfoldable pub next : Bool → Place → Kgarten → Kgarten × Place
next true entering kg = (kg, enter_test)
next false entering kg = (kg, enter_go)
next child enter_test kg = (kg, if is_full kg then enter_wait else enter_go)
next child enter_wait kg = (kg, enter_test)
next true enter_go kg = (record kg { vc = kg.vc + 1 }, entered)
next false enter_go kg = (record kg { vt = kg.vt + 1 }, entered)
next child entered kg = (kg, inside)
next child inside kg = (kg, check_in)
next child check_in kg = (kg, verify checked_in kg)
next child checked_in kg = (kg, exiting)
next true exiting kg = (kg, exit_go)
next false exiting kg = (kg, exit_test)
next child exit_test kg = (kg, if is_needed kg then exit_wait else exit_go)
next child exit_wait kg = (kg, exit_test)
next true exit_go kg = (record kg { vc = kg.vc - 1 }, exited)
next false exit_go kg = (record kg { vt = kg.vt - 1 }, exited)
next child exited kg = (kg, outside)
next child outside kg = (kg, check_out)
next child check_out kg = (kg, verify checked_out kg)
next child checked_out kg = (kg, entering)
next child failed kg = (kg, failed)

-- The thread has the mutex.
unfoldable pub holds : Place → Bool
holds enter_test = true
holds enter_go = true
holds entered = true
holds check_in = true
holds checked_in = true
holds exit_test = true
holds exit_go = true
holds exited = true
holds check_out = true
holds checked_out = true
holds _ = false

pub record Thread : Type 0 where
  pub is_child : Bool
  pub place : Place

-- `locked` is the mutex.
pub record System : Type 0 where
  pub kg : Kgarten
  pub locked : Bool
  pub threads : List Thread

abbrev pub move : System → List Thread → Thread → List Thread → System
move s before t behind =
    let r = next t.is_child t.place s.kg in
    record { kg = r.0; locked = holds r.1; threads = before ++ record t { place = r.1 } ∷ behind }

-- A step of any thread: of the one that has the mutex, or while it is free of one that takes it.
pub data Step (s : System) : System → Type 0 where
  pick :
      (before : List Thread) (t : Thread) (behind : List Thread)
      → s.threads ≡ before ++ t ∷ behind
      → holds t.place ≡ s.locked
      → Step s (move s before t behind)

abbrev pub newcomers : List Bool → List Thread
newcomers = map (λ c. record { is_child = c; place = entering })

-- The start of `main`, with a thread for each entry of the list.
abbrev pub init : ℕ → List Bool → System
init ratio children = record {
  kg = record { vt = 0; vc = 0; ratio = ratio };
  locked = false;
  threads = newcomers children;
}

pub data Reach (ratio : ℕ) (children : List Bool) : System → Type 0 where
  start : Reach ratio children (init ratio children)
  later : {s s' : System} → Reach ratio children s → Step s s' → Reach ratio children s'
