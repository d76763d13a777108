-- ===== src/Exer2/ExprRv/Defs.antt =====
-- exer2/ask2-expr-rv/ask2-expr.c: each node of the tree is a process. What a process does is told by
-- what its parent sees of it: it stops, and when it is continued it exits with a status, or it ends
-- before it has stopped.
use cslab_os.Base.{
  ℕ, ◌+◌, ◌-◌, ◌*◌, ◌%◌, ◌==◌, Bool, Option, none, some, List, [], ◌∷◌, if◌then◌else◌,
}
use cslab_os.Base.Int.{ℤ, pos, negsuc}
use cslab_os.Exer2.Tree.{Tree, node, nil, cons}
use cslab_os.Text.{atoi}

-- What `exit(result)` leaves for `WEXITSTATUS`: the low byte.
unfoldable pub low_byte : ℤ → ℕ
low_byte (pos n) = n % 256
low_byte (negsuc n) = 255 - n % 256

-- `exits`: the status after SIGCONT; `early`: a failed assertion, `malloc`, `fork` or child.
pub data Process : Type 0 where
  exits : ℕ → Process
  early : Process

-- The operator is the first character of the name; `exit(1)` at any other.
unfoldable pub combine : List ℕ → ℕ → ℕ → ℕ
combine [] x y = 1
combine (c ∷ cs) x y =
    if c == 42 then low_byte (pos (x * y)) else if c == 43 then low_byte (pos (x + y)) else 1

-- `wait_for_ready_children(2)` ends the process when a child ended before it stopped.
abbrev pub join : List ℕ → Process → Process → Process
join name (exits x) (exits y) = exits (combine name x y)
join name early _ = early
join name (exits x) early = early

-- `can_fork` tells for the name of a node whether its `malloc` and both of its `fork`s succeed.
unfoldable pub fork_procs : (List ℕ → Bool) → Tree → Process
fork_procs can_fork (node name nil) = exits (low_byte (atoi name))
fork_procs can_fork (node name (cons a nil)) = early
fork_procs can_fork (node name (cons a (cons b nil))) =
    let x = fork_procs can_fork a in
    let y = fork_procs can_fork b in if can_fork name then join name x y else early
fork_procs can_fork (node name (cons a (cons b (cons c cs)))) = early

-- The number that `main` prints once the root's process was made, or none for its `exit(1)`.
unfoldable pub printed : (List ℕ → Bool) → Tree → Option ℕ
printed can_fork root = elim (fork_procs can_fork root) [ exits x ↦ some x | early ↦ none ]
