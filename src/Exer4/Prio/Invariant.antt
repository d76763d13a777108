-- ===== src/Exer4/Prio/Invariant.antt =====
-- What holds of the scheduler's variables between two events, and that no event breaks it.
use cslab_os.Base.{
  ℕ, ◌+◌, ◌≤◌, ◌<◌, ◌≡◌, some, Bool, List, [], ◌∷◌, ◌++◌, arith, count, count-append, find?,
  erase_first, count-erase_first,
}
use cslab_os.Base.Int.{ℤ, pos}
use cslab_os.Exer4.Plist.Memory.{Proc}
use cslab_os.Exer4.Plist.Ops.{has_pid, has_id}
use cslab_os.Exer4.Os.{World}
use cslab_os.Exer4.Prio.Defs.{Vars}

-- How many tasks of the two lists pass a test.
abbrev pub total : (Proc → Bool) → Vars → ℕ
total t s = count t s.high_procs + count t s.low_procs

-- Pids and ids are unique over both lists, no pid is 0, and ids from `next_id` on are unused.
pub record IsSound (s : Vars) : Type 0 where
  pub pids : (p : ℕ) → total (has_pid p) s ≤ 1
  pub ids : (z : ℤ) → total (has_id z) s ≤ 1
  pub no_zero : total (has_pid 0) s ≡ 0
  pub unused : (n : ℕ) → s.next_id ≤ n → total (has_id (pos n)) s ≡ 0

-- The current process is one of the tasks.
abbrev pub Serves : Vars → Type 0
Serves s = 0 < total (has_pid s.current_pid) s

abbrev pub IsGood : World Vars → Type 0
IsGood w = IsSound w.vars × Serves w.vars

-- A task goes from one list to the end of the other: no test of its keys can tell.
pub total-move :
    (u : Proc → Bool) (from to : List Proc) (v new : Proc)
    → find? (has_pid v.pid) from ≡ some v
    → u new ≡ u v
    → count u (to ++ new ∷ []) + count u (erase_first (has_pid v.pid) from)
      ≡ count u to + count u from
total-move u from to v new e same =
    ground (arith, count-append u to (new ∷ []), count-erase_first (has_pid v.pid) u from {v = v})
