-- ===== src/Exer2/ExprPipe/Defs.antt =====
-- exer2/ask2-expr/ask2-expr.c: each node of the tree is a process that reads the results of its two
-- children from a pipe and writes its own to the pipe of its parent. What a process does is told by what
-- its parent sees of it.
use cslab_os.Base.{
  ℕ, ◌==◌, Bool, Option, none, some, List, [], ◌∷◌, ◌++◌, if◌then◌else◌, ◌||◌, false, true,
}
use cslab_os.Base.Int.{ℤ, ◌+ℤ◌, ◌*ℤ◌, to_int}
use cslab_os.Exer2.Tree.{Tree, node, nil, cons}
use cslab_os.Exer2.TreeFile.Defs.{Result, ok, failed, out_of_fuel, get_tree_from_file}
use cslab_os.Text.{atoi}
use cslab_os.Text.Strtol.{clamp}

-- `writes`: the `int` in the pipe, and `exit(0)`; `silent`: it stopped, and after SIGCONT `exit(1)` with
-- nothing written; `early`: it ended before it stopped.
pub data Process : Type 0 where
  writes : ℤ → Process
  silent early : Process

-- `pipe`, `malloc` and both `fork`s of a node, and its `write`.
pub record System : Type 0 where
  pub can_fork : List ℕ → Bool
  pub can_write : List ℕ → Bool

-- The end of `fork_procs`: the result goes to the parent.
unfoldable pub write_result : System → List ℕ → ℤ → Process
write_result sys name z = if sys.can_write name then writes z else silent

abbrev pub is_early : Process → Bool
is_early (writes z) = false
is_early silent = false
is_early early = true

-- What a process leaves in its parent's pipe.
abbrev pub written : Process → List ℤ
written (writes z) = z ∷ []
written silent = []
written early = []

-- `read` of an `int` from a pipe whose writers are gone: none at its end.
abbrev pub read_int : List ℤ → Option (ℤ × List ℤ)
read_int [] = none
read_int (z ∷ pipe) = some (z, pipe)

-- The operator is the first character of the name. Nothing tests the `int` of 32 bits for an overflow,
-- which C leaves open; here it wraps, as in the code that gcc makes.
unfoldable pub calculate : System → List ℕ → ℤ → ℤ → Process
calculate sys [] result x = silent
calculate sys (c ∷ cs) result x =
    if c == 42
    then write_result sys (c ∷ cs) (to_int (result *ℤ x))
    else if c == 43
    then write_result sys (c ∷ cs) (to_int (result +ℤ x))
    else silent

-- The two reads.
unfoldable pub compute : System → List ℕ → List ℤ → Process
compute sys name pipe = elim (read_int pipe) [
  | none ↦ silent
  | some (result, rest) ↦ elim (read_int rest) [
    | none ↦ silent
    | some (x, rest') ↦ calculate sys name result x
  ]
]

-- Both children are ready, or the process ends; then they run one after the other, and what they wrote
-- is read.
unfoldable pub join : System → List ℕ → Process → Process → Process
join sys name a b =
    if is_early a || is_early b then early else compute sys name (written a ++ written b)

-- `atoi` is the C library's `strtol`, cut down to an `int`.
unfoldable pub fork_procs : System → Tree → Process
fork_procs sys (node name nil) = write_result sys name (to_int (clamp (atoi name)))
fork_procs sys (node name (cons a nil)) = early
fork_procs sys (node name (cons a (cons b nil))) =
    let x = fork_procs sys a in
    let y = fork_procs sys b in if sys.can_fork name then join sys name x y else early
fork_procs sys (node name (cons a (cons b (cons c cs)))) = early

-- `main`, once the process of the root was made: the number that it prints, or its `exit(1)`.
pub data Outcome : Type 0 where
  prints : ℤ → Outcome
  exits_1 : Outcome

abbrev pub outcome : Process → Outcome
outcome (writes z) = prints z
outcome silent = exits_1
outcome early = exits_1

unfoldable pub main_outcome : System → Tree → Outcome
main_outcome sys root = outcome (fork_procs sys root)

-- `main` with the tree read from the file; it makes the root's process. For an empty file that process
-- follows NULL, and `main` sees it end before it has stopped. `none` is out of fuel.
abbrev pub run_tree : System → Result (Option Tree) → Option Outcome
run_tree sys (ok none rest) = some exits_1
run_tree sys (ok (some root) rest) = some (main_outcome sys root)
run_tree sys failed = some exits_1
run_tree sys out_of_fuel = none

unfoldable pub program : System → (ℕ → Bool) → List ℕ → Option Outcome
program sys alloc file = run_tree sys (get_tree_from_file alloc file)
