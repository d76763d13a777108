-- ===== src/ProcCommon.antt =====
-- proc-common.c, of which exer2 and exer4 hold equal copies: waiting for children, and shared memory.
use cslab_os.Base.{
  ℕ, zero, suc, ◌+◌, ◌-◌, ◌*◌, ◌/◌, ◌≤◌, ◌<◌, ◌≡◌, refl, Bool, true, false, Option, none, some,
  List, [], ◌∷◌, ◌++◌, arith, ◌==◌, if◌then◌else◌, length,
}

-- The status that `waitpid` stores, as the macros of sys/wait.h take it apart: an exit status, or
-- the number of a signal.
pub data Status : Type 0 where
  exited_with : ℕ → Status
  killed_by : ℕ → Status
  stopped_by : ℕ → Status
  continued : Status

-- `explain_wait_status` knows three kinds of status and ends the program at any other.
unfoldable pub explains : Status → Bool
explains (exited_with code) = true
explains (killed_by sig) = true
explains (stopped_by sig) = true
explains continued = false

unfoldable pub is_stopped : Status → Bool
is_stopped (stopped_by sig) = true
is_stopped _ = false

-- `blocked`: `waitpid` has no more to report and waits; `failed`: `exit(1)`.
pub data Ready : Type 0 where
  ready : List (ℕ × Status) → Ready
  blocked : Ready
  failed : Ready

-- The list holds what successive calls of `waitpid` report.
unfoldable pub wait_for_ready_children : ℕ → List (ℕ × Status) → Ready
unfolding explains is_stopped
wait_for_ready_children zero reports = ready reports
wait_for_ready_children (suc cnt) [] = blocked
wait_for_ready_children (suc cnt) ((p, st) ∷ reports) =
    let rest = wait_for_ready_children cnt reports in
    if explains st then (if is_stopped st then rest else failed) else failed

abbrev pub all_stopped : List (ℕ × Status) → Bool
all_stopped [] = true
all_stopped ((p, st) ∷ reports) = if is_stopped st then all_stopped reports else false

-- With `cnt` reports at hand the function returns exactly when all of them are stops, and takes no
-- more than these; otherwise it ends the program.
pub wait_for_ready_children-all_stopped :
    (reports rest : List (ℕ × Status))
    → wait_for_ready_children (length reports) (reports ++ rest)
      ≡ (if all_stopped reports then ready rest else failed)
unfolding wait_for_ready_children
wait_for_ready_children-all_stopped [] rest = refl
wait_for_ready_children-all_stopped ((p, exited_with c) ∷ reports) rest = refl
wait_for_ready_children-all_stopped ((p, killed_by c) ∷ reports) rest = refl
wait_for_ready_children-all_stopped ((p, stopped_by c) ∷ reports) rest =
    wait_for_ready_children-all_stopped reports rest
wait_for_ready_children-all_stopped ((p, continued) ∷ reports) rest = refl

-- The bytes that `create_shared_memory_area` maps, `none` for its `exit(1)` on a request of none.
-- `page` is what `sysconf(_SC_PAGE_SIZE)` answers.
unfoldable pub mapped_bytes : (page numbytes : ℕ) → Option ℕ
mapped_bytes page numbytes =
    if numbytes == 0 then none else some (((numbytes - 1) / page + 1) * page)

-- For a request of at least one byte and pages of at least one byte: the mapping is made, has room for
-- the bytes that were asked for, and is larger by less than a page.
pub mapped_bytes_bounds :
    (page numbytes : ℕ)
    → 0 < page
    → 0 < numbytes
    → (size : ℕ) × (mapped_bytes page numbytes ≡ some size)
      × (numbytes ≤ size)
      × (size < numbytes + page)
unfolding mapped_bytes
mapped_bytes_bounds page numbytes some_page some_bytes =
    (((numbytes - 1) / page + 1) * page, ground arith, grind arith, grind arith)
