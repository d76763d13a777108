-- ===== src/Exer2/ExprPipe/Program.antt =====
-- The whole program, from the tree file to the printed result.
use cslab_os.Base.{ℕ, ◌≡◌, ap, ◌∙◌, Bool, true, some, List, []}
use cslab_os.Base.Int.{ℤ}
use cslab_os.Exer2.Tree.{Tree}
use cslab_os.Exer2.TreeFile.Writer.{write_tree, Writable}
use cslab_os.Exer2.TreeFile.RoundTrip.{get_tree_from_file-write_tree}
use cslab_os.Exer2.ExprPipe.Defs.{System, prints, run_tree, program}
use cslab_os.Exer2.ExprPipe.Value.{Denotes, main_outcome-Denotes}

-- When every `malloc`, `pipe`, `fork` and `write` succeeds: on the tree file of an expression whose results
-- all fit into an `int`, and that a tree file can hold, the program prints the value of the expression.
pub program-write_tree :
    (sys : System) (alloc : ℕ → Bool) {t : Tree} {z : ℤ}
    → ((n : ℕ) → alloc n ≡ true)
    → ((name : List ℕ) → sys.can_fork name ≡ true)
    → ((name : List ℕ) → sys.can_write name ≡ true)
    → Writable t
    → Denotes t z
    → program sys alloc (write_tree t []) ≡ some (prints z)
unfolding program
program-write_tree sys alloc {t} memory forks succeeds writable denotes =
    ap (run_tree sys) (get_tree_from_file-write_tree alloc t memory writable)
    ∙ ap some (main_outcome-Denotes sys forks succeeds denotes)
