-- ===== src/Exer2/ForkTree/Tests.antt =====
-- A root with two leaves. The second leaf exits and is waited for while the first one sleeps.
use cslab_os.Base.{ℕ, [], ◌∷◌, ◌⊎◌, ◌≤◌}
use cslab_os.Exer2.Tree.{Tree, node, nil, cons}
use cslab_os.Exer2.ForkTree.{
  Proc, snoc, Run, begin, step, inner, fork, forked, leaf, wake, wait, this, later, while_waiting,
  here, there,
}
use cslab_os.Exer2.ForkTree.Shape.{Of, Run-Of}
use cslab_os.Exer2.ForkTree.Ends.{CanGo, Ended, cost, Run-Ended}

abbrev leaf_of : ℕ → Tree
leaf_of c = node (c ∷ []) nil

abbrev family : Tree
family = node (65 ∷ []) (cons (leaf_of 66) (cons (leaf_of 67) nil))

half_way : (p : Proc) × Run family 8 p
unfolding snoc
half_way = (
  _,
  step
      (step
        (step
          (step
            (step
              (step
                (step (step begin (inner (65 ∷ []) (leaf_of 66) (cons (leaf_of 67) nil)))
                  (fork _ (leaf_of 66) (cons (leaf_of 67) nil)))
                (fork _ (leaf_of 67) nil))
              (forked _))
            (while_waiting (there (here (leaf (67 ∷ []))))))
          (while_waiting (here (leaf (66 ∷ [])))))
        (while_waiting (there (here wake))))
      (wait (later this)),
)

Run-Of_example : Of family half_way.0
Run-Of_example = Run-Of half_way.1

Run-Ended_example : (CanGo half_way.0 ⊎ Ended half_way.0) × (8 ≤ cost family)
Run-Ended_example = Run-Ended half_way.1
