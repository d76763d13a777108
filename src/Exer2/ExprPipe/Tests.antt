-- ===== src/Exer2/ExprPipe/Tests.antt =====
-- -3 * (7 + 9), and a tree with an operator that is none.
use cslab_os.Base.{ℕ, arith, ◌==◌, false, List, some, ◌≡◌, refl, true, [], ◌∷◌}
use cslab_os.Base.Int.{negsuc, is_int, ◌+ℤ◌, ◌*ℤ◌, to_int, wrap, pos}
use cslab_os.Exer2.TreeFile.Writer.{IsName, Writable, write_tree}
use cslab_os.Exer2.ExprPipe.Program.{program-write_tree}
use cslab_os.Text.Strtol.{clamp}
use cslab_os.Text.Lines.{is_end}
use cslab_os.Text.{atoi, signed_value, digits_value}
use cslab_os.Exer2.Tree.{Tree, node, nil, cons}
use cslab_os.Exer2.ExprPipe.Defs.{
  System, prints, exits_1, program, main_outcome, fork_procs, join, write_result, compute,
  calculate,
}
use cslab_os.Exer2.ExprPipe.Value.{Denotes, leaf, product, sum}

abbrev sys : System
sys = record { can_fork = λ name. true; can_write = λ name. true }

abbrev seven : Tree
seven = node (55 ∷ []) nil

abbrev nine : Tree
nine = node (57 ∷ []) nil

abbrev minus_three : Tree
minus_three = node (45 ∷ 51 ∷ []) nil

abbrev tree : Tree
tree = node (42 ∷ []) (cons minus_three (cons (node (43 ∷ []) (cons seven (cons nine nil))) nil))

abbrev bad_tree : Tree
bad_tree = node (42 ∷ []) (cons seven (cons (node (45 ∷ []) (cons seven (cons nine nil))) nil))

-- 65536 * 65536
abbrev big : Tree
big = node (54 ∷ 53 ∷ 53 ∷ 51 ∷ 54 ∷ []) nil

main_outcome-wraps : main_outcome sys (node (42 ∷ []) (cons big (cons big nil))) ≡ prints (pos 0)
unfolding main_outcome fork_procs join write_result to_int wrap clamp atoi signed_value digits_value
    compute calculate ◌*ℤ◌
main_outcome-wraps = refl

bad_tree-exits : main_outcome sys bad_tree ≡ exits_1
unfolding main_outcome fork_procs join write_result to_int wrap clamp atoi signed_value digits_value
    compute calculate
bad_tree-exits = refl

tree-Denotes : Denotes tree (negsuc 47)
unfolding is_int atoi signed_value digits_value ◌+ℤ◌ ◌*ℤ◌
tree-Denotes =
    product [] (leaf (45 ∷ 51 ∷ []) refl) (sum [] (leaf (55 ∷ []) refl) (leaf (57 ∷ []) refl) refl)
      refl

char-IsName : (c : ℕ) → is_end c ≡ false → (c == 35) ≡ false → IsName (c ∷ [])
char-IsName c text first = record {
  text = rw text refl;
  short = omega arith;
  first = (c, [], refl, first);
}

minus_three-IsName : IsName (45 ∷ 51 ∷ [])
minus_three-IsName = record { text = refl; short = omega arith; first = (45, 51 ∷ [], refl, refl) }

tree-Writable : Writable tree
unfolding Writable
tree-Writable =
    let sum_Writable : Writable (node (43 ∷ []) (cons seven (cons nine nil))) = (
      char-IsName 43 refl refl,
      omega arith,
      (
        (char-IsName 55 refl refl, omega arith, tt),
        ((char-IsName 57 refl refl, omega arith, tt), tt),
      ),
    ) in
    (
      char-IsName 42 refl refl,
      omega arith,
      ((minus_three-IsName, omega arith, tt), (sum_Writable, tt)),
    )

abbrev file : List ℕ
file = write_tree tree []

program-write_tree_example :
    program sys (λ n. true) (write_tree tree []) ≡ some (prints (negsuc 47))
program-write_tree_example =
    program-write_tree sys (λ n. true) (λ n. refl) (λ name. refl) (λ name. refl) tree-Writable
      tree-Denotes
