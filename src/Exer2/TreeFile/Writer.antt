-- ===== src/Exer2/TreeFile/Writer.antt =====
-- The tree files of trees, in the format that exer2/ask2-expr/tree.c reads.
use cslab_os.Base.{ℕ, ◌<◌, List, suc, [], ◌^◌, any, ◌++◌, ◌+◌, ◌∷◌, ◌≡◌, false, length, ◌≤◌, ◌==◌}
use cslab_os.Text.Lines.{is_end}
use cslab_os.Text.Decimal.{decimal}
use cslab_os.Exer2.Tree.{Tree, node, Forest, nil, cons}

-- The tree file of a tree, before the rest of a file: for each node a block of its name, the number of
-- its children and their names, and after it the blocks of the children in order.
abbrev pub count_children : Forest → ℕ
count_children nil = 0
count_children (cons t ts) = suc (count_children ts)

abbrev pub name_of : Tree → List ℕ
name_of (node name children) = name

abbrev pub names_of : Forest → List (List ℕ)
names_of nil = []
names_of (cons t ts) = name_of t ∷ names_of ts

abbrev pub write_names : List (List ℕ) → List ℕ → List ℕ
write_names [] rest = rest
write_names (name ∷ names) rest = name ++ 10 ∷ write_names names rest

unfoldable mutual
  pub write_tree : Tree → List ℕ → List ℕ
  write_tree (node name children) rest =
      name
      ++ 10
        ∷ (decimal (count_children children)
            ++ 10 ∷ write_names (names_of children) (10 ∷ write_forest children rest))

  pub write_forest : Forest → List ℕ → List ℕ
  write_forest nil rest = rest
  write_forest (cons t ts) rest = write_tree t (write_forest ts rest)

-- A name that a tree file can hold: one to 15 characters of a line, the first one not '#'.
pub record IsName (name : List ℕ) : Type 0 where
  pub text : any is_end name ≡ false
  pub short : length name ≤ 15
  pub first : (c : ℕ) × (cs : List ℕ) × (name ≡ c ∷ cs) × ((c == 35) ≡ false)

-- Every name is one, and no node has 2 ^ 31 children or more.
unfoldable mutual
  pub Writable : Tree → Type 0
  Writable (node name children) =
      IsName name × (count_children children < 2 ^ 31) × WritableAll children

  pub WritableAll : Forest → Type 0
  WritableAll nil = Unit
  WritableAll (cons t ts) = Writable t × WritableAll ts

unfoldable mutual
  pub size : Tree → ℕ
  size (node name children) = suc (size_all children)

  pub size_all : Forest → ℕ
  size_all nil = 0
  size_all (cons t ts) = size t + size_all ts
