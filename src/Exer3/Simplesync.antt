-- ===== src/Exer3/Simplesync.antt =====
-- exer3/simplesync/simplesync.c: two threads that change one variable.
use cslab_os.Base.{ℕ, zero, suc, ◌+◌, ◌<◌, ◌≡◌, Bool, true, false, Option, none, some}
use cslab_os.Base.Int.{ℤ, pos, negsuc}
pub mod Safe
pub mod Ends
mod Tests

-- SYNC_ATOMIC or SYNC_MUTEX
pub data Sync : Type 0 where
  atomic mutex : Sync

-- Where a thread stands in its loop, with its `i`: at its head, after the lock, with the value of the
-- variable loaded, or before the unlock.
pub data Place : Type 0 where
  head locked stored : ℕ → Place
  loaded : ℕ → ℤ → Place

-- The threads are named by `true` for `increase_fn` and `false` for `decrease_fn`.
pub record State : Type 0 where
  pub val : ℤ
  pub owner : Option Bool
  pub places : Bool → Place

unfoldable pub increased : ℤ → ℤ
increased (pos n) = pos (n + 1)
increased (negsuc zero) = pos 0
increased (negsuc (suc n)) = negsuc n

unfoldable pub decreased : ℤ → ℤ
decreased (pos zero) = negsuc 0
decreased (pos (suc n)) = pos n
decreased (negsuc n) = negsuc (n + 1)

-- ++(*ip) or --(*ip)
abbrev pub changed : Bool → ℤ → ℤ
changed true v = increased v
changed false v = decreased v

abbrev pub move : Bool → Place → (Bool → Place) → Bool → Place
move true p places true = p
move true p places false = places false
move false p places true = places true
move false p places false = p

-- One step of a thread, whose loop runs `n` times, which is the source's `N`. With a mutex the variable is
-- loaded and stored in two steps.
pub data Step (n : ℕ) (s : State) : Sync → State → Type 0 where
  change :
      (t : Bool) (i : ℕ)
      → s.places t ≡ head i
      → i < n
      → Step n s atomic
          (record s { val = changed t s.val; places = move t (head (i + 1)) s.places })
  lock :
      (t : Bool) (i : ℕ)
      → s.places t ≡ head i
      → i < n
      → s.owner ≡ none
      → Step n s mutex (record s { owner = some t; places = move t (locked i) s.places })
  load :
      (t : Bool) (i : ℕ)
      → s.places t ≡ locked i
      → Step n s mutex (record s { places = move t (loaded i s.val) s.places })
  store :
      (t : Bool) (i : ℕ) (v : ℤ)
      → s.places t ≡ loaded i v
      → Step n s mutex (record s { val = changed t v; places = move t (stored i) s.places })
  unlock :
      (t : Bool) (i : ℕ)
      → s.places t ≡ stored i
      → Step n s mutex (record s { owner = none; places = move t (head (i + 1)) s.places })

-- `main` when both threads are made.
abbrev pub start : State
start = record { val = pos 0; owner = none; places = λ t. head 0 }

pub data Reach (n : ℕ) (sync : Sync) : State → Type 0 where
  begin : Reach n sync start
  step : {s s' : State} → Reach n sync s → Step n s sync s' → Reach n sync s'
