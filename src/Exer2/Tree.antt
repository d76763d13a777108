-- ===== src/Exer2/Tree.antt =====
-- exer2/*/tree.h: the nodes of a process tree (the four copies of the file are equal).
use cslab_os.Base.{ℕ, List}

-- `struct tree_node`: a name, and the array of the children.
mutual
  pub data Tree : Type 0 where
    node : List ℕ → Forest → Tree

  pub data Forest : Type 0 where
    nil : Forest
    cons : Tree → Forest → Forest
