-- ===== src/Exer2/Signals/Tests.antt =====
-- A root with two children.
use cslab_os.Base.{ℕ, ◌≡◌, refl, ◌==◌, Bool, List, [], ◌∷◌, map, length, count}
use cslab_os.Exer2.Tree.{Tree, node, nil, cons}
use cslab_os.Exer2.TreeFile.Defs.{print_tree}
use cslab_os.Exer2.Signals.{
  exited, start, create, stop, here, there, wake, child, exit, first, next, Run, fork, starting,
  running,
}
use cslab_os.Exer2.Signals.Order.{Run-print_tree}

abbrev a : List ℕ
a = 97 ∷ []

abbrev b : List ℕ
b = 98 ∷ []

abbrev c : List ℕ
c = 99 ∷ []

abbrev tree : Tree
tree = node a (cons (node b nil) (cons (node c nil) nil))

-- The second child starts first.
tree-Run : Run tree (a ∷ c ∷ b ∷ []) (a ∷ b ∷ c ∷ []) (exited tree)
tree-Run =
    let ready =
      starting
        (starting
          (starting
            (starting (starting (starting fork (start a _)) (create a (there (here (start c nil)))))
              (create a (here (start b nil))))
            (create a (here (stop b nil refl))))
          (create a (there (here (stop c nil refl)))))
        (stop a (cons (node b nil) (cons (node c nil) nil)) refl) in
    running
      (running
        (running
          (running (running (running ready (wake a _)) (child a (first (wake b nil))))
            (child a (first (exit b nil refl))))
          (child a (next (first (wake c nil)))))
        (child a (next (first (exit c nil refl)))))
      (exit a (cons (node b nil) (cons (node c nil) nil)) refl)

is_b : List ℕ → Bool
is_b name = length name == 1

Run-print_tree_example :
    (tree ≡ tree)
    × (a ∷ b ∷ c ∷ [] ≡ map (λ line. line.1) (print_tree tree 0))
    × (count is_b (a ∷ c ∷ b ∷ []) ≡ count is_b (a ∷ b ∷ c ∷ []))
Run-print_tree_example = Run-print_tree is_b tree-Run
