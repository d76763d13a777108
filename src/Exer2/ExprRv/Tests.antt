-- ===== src/Exer2/ExprRv/Tests.antt =====
-- (7 + 9) * 20 in a byte.
use cslab_os.Base.{arith, ◌+◌, ◌*◌, ◌%◌, ◌≡◌, refl, true, some, [], ◌∷◌}
use cslab_os.Exer2.Tree.{Tree, node, nil, cons}
use cslab_os.Text.{atoi, signed_value, digits_value}
use cslab_os.Exer2.ExprRv.Defs.{printed}
use cslab_os.Exer2.ExprRv.Value.{Denotes, leaf, product, sum, printed-value}

abbrev seven : Tree
seven = node (55 ∷ []) nil

abbrev nine : Tree
nine = node (57 ∷ []) nil

abbrev twenty : Tree
twenty = node (50 ∷ 48 ∷ []) nil

abbrev tree : Tree
tree = node (42 ∷ []) (cons (node (43 ∷ []) (cons seven (cons nine nil))) (cons twenty nil))

tree-Denotes : Denotes tree ((7 + 9) * 20)
unfolding atoi signed_value digits_value
tree-Denotes =
    product [] (sum [] (leaf (55 ∷ []) 7 refl (omega arith)) (leaf (57 ∷ []) 9 refl (omega arith)))
      (leaf (50 ∷ 48 ∷ []) 20 refl (omega arith))

printed-value_example : printed (λ name. true) tree ≡ some (320 % 256)
printed-value_example = printed-value (λ name. true) (λ name. refl) tree-Denotes
