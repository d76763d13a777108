-- ===== src/Exer2/TreeFile/Tests.antt =====
-- The expression 10 * 4 as a tree file.
use cslab_os.Base.{ℕ, ◌≡◌, ◌≢◌, refl, arith, true, some, List, [], ◌∷◌}
use cslab_os.Exer2.Tree.{Tree, node, nil, cons}
use cslab_os.Exer2.TreeFile.Defs.{ok, out_of_fuel, get_tree_from_file}
use cslab_os.Exer2.TreeFile.Terminates.{get_tree_from_file-ends}
use cslab_os.Exer2.TreeFile.Writer.{write_tree, Writable, IsName}
use cslab_os.Exer2.TreeFile.RoundTrip.{get_tree_from_file-write_tree}

abbrev star : List ℕ
star = 42 ∷ []

abbrev ten : List ℕ
ten = 49 ∷ 48 ∷ []

abbrev four : List ℕ
four = 52 ∷ []

abbrev tree : Tree
tree = node star (cons (node ten nil) (cons (node four nil) nil))

star-IsName : IsName star
star-IsName = record { text = refl; short = omega arith; first = (42, [], refl, refl) }

ten-IsName : IsName ten
ten-IsName = record { text = refl; short = omega arith; first = (49, 48 ∷ [], refl, refl) }

four-IsName : IsName four
four-IsName = record { text = refl; short = omega arith; first = (52, [], refl, refl) }

tree-Writable : Writable tree
unfolding Writable
tree-Writable = (
  star-IsName,
  omega arith,
  ((ten-IsName, omega arith, tt), ((four-IsName, omega arith, tt), tt)),
)

get_tree_from_file-write_tree_example :
    get_tree_from_file (λ n. true) (write_tree tree []) ≡ ok (some tree) []
get_tree_from_file-write_tree_example =
    get_tree_from_file-write_tree (λ n. true) tree (λ n. refl) tree-Writable

-- A name without its block.
get_tree_from_file-ends_example : get_tree_from_file (λ n. true) star ≢ out_of_fuel
get_tree_from_file-ends_example = get_tree_from_file-ends (λ n. true) star
