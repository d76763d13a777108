-- ===== src/Exer2/Signals/Steps.antt =====
-- What a step does with the tree, and with the names that are still to be printed.
use cslab_os.Base.{
  ℕ, ◌+◌, ◌≡◌, refl, sym, ap, ap₂, ◌∙◌, Bool, List, [], ◌∷◌, ◌++◌, map, append_assoc, map-append,
  arith, count, count-append,
}
use cslab_os.Exer2.Tree.{Tree, node, Forest, nil, cons}
use cslab_os.Exer2.TreeFile.Defs.{print_tree, print_children}
use cslab_os.Exer2.Signals.{
  Proc, unborn, stopped, exited, creating, awake, Procs, none, more, all_unborn, all_stopped,
  all_exited, Starts, StartsAny, start, create, stop, here, there, Runs, RunsFirst, wake, child,
  exit, first, next,
}

-- The names of a tree, in the order in which `print_tree` prints them.
unfoldable mutual
  pub names : Tree → List (List ℕ)
  names (node name ts) = name ∷ names_all ts

  pub names_all : Forest → List (List ℕ)
  names_all nil = []
  names_all (cons t ts) = names t ++ names_all ts

mutual
  unfolding names print_tree

  pub names-print_tree :
      (t : Tree) (level : ℕ) → map (λ line. line.1) (print_tree t level) ≡ names t
  names-print_tree (node name ts) level =
      ap (λ rest. name ∷ rest) (names-print_children ts (level + 1))

  names-print_children :
      (ts : Forest) (level : ℕ) → map (λ line. line.1) (print_children ts level) ≡ names_all ts
  names-print_children nil level = refl
  names-print_children (cons t ts) level =
      map-append (λ line. line.1) (print_tree t level) (print_children ts level)
      ∙ ap₂ (λ a b. a ++ b) (names-print_tree t level) (names-print_children ts level)

-- The tree of a process.
unfoldable mutual
  pub tree_of : Proc → Tree
  tree_of (unborn t) = t
  tree_of (stopped t) = t
  tree_of (exited t) = t
  tree_of (creating name ps) = node name (forest_of ps)
  tree_of (awake name ps) = node name (forest_of ps)

  pub forest_of : Procs → Forest
  forest_of none = nil
  forest_of (more p ps) = cons (tree_of p) (forest_of ps)

-- The names that have not started, and those that are not awake, in order.
unfoldable mutual
  pub unstarted : Proc → List (List ℕ)
  unstarted (unborn t) = names t
  unstarted (stopped t) = []
  unstarted (exited t) = []
  unstarted (creating name ps) = unstarted_all ps
  unstarted (awake name ps) = []

  pub unstarted_all : Procs → List (List ℕ)
  unstarted_all none = []
  unstarted_all (more p ps) = unstarted p ++ unstarted_all ps

unfoldable mutual
  pub asleep : Proc → List (List ℕ)
  asleep (unborn t) = names t
  asleep (stopped t) = names t
  asleep (exited t) = []
  asleep (creating name ps) = name ∷ names_all (forest_of ps)
  asleep (awake name ps) = asleep_all ps

  pub asleep_all : Procs → List (List ℕ)
  asleep_all none = []
  asleep_all (more p ps) = asleep p ++ asleep_all ps

-- The children when none has started, when all have stopped, and when all have exited.
forest_of-all_unborn : (ts : Forest) → forest_of (all_unborn ts) ≡ ts
unfolding forest_of tree_of
forest_of-all_unborn nil = refl
forest_of-all_unborn (cons t ts) = ap (cons t) (forest_of-all_unborn ts)

forest_of-all_stopped : (ts : Forest) → forest_of (all_stopped ts) ≡ ts
unfolding forest_of tree_of
forest_of-all_stopped nil = refl
forest_of-all_stopped (cons t ts) = ap (cons t) (forest_of-all_stopped ts)

forest_of-all_exited : (ts : Forest) → forest_of (all_exited ts) ≡ ts
unfolding forest_of tree_of
forest_of-all_exited nil = refl
forest_of-all_exited (cons t ts) = ap (cons t) (forest_of-all_exited ts)

unstarted_all-all_unborn : (ts : Forest) → unstarted_all (all_unborn ts) ≡ names_all ts
unfolding unstarted_all names_all unstarted
unstarted_all-all_unborn nil = refl
unstarted_all-all_unborn (cons t ts) = ap (λ rest. names t ++ rest) (unstarted_all-all_unborn ts)

unstarted_all-all_stopped : (ts : Forest) → unstarted_all (all_stopped ts) ≡ []
unfolding unstarted_all unstarted
unstarted_all-all_stopped nil = refl
unstarted_all-all_stopped (cons t ts) = unstarted_all-all_stopped ts

asleep_all-all_stopped : (ts : Forest) → asleep_all (all_stopped ts) ≡ names_all ts
unfolding asleep_all names_all asleep
asleep_all-all_stopped nil = refl
asleep_all-all_stopped (cons t ts) = ap (λ rest. names t ++ rest) (asleep_all-all_stopped ts)

asleep_all-all_exited : (ts : Forest) → asleep_all (all_exited ts) ≡ []
unfolding asleep_all asleep
asleep_all-all_exited nil = refl
asleep_all-all_exited (cons t ts) = asleep_all-all_exited ts

-- A step keeps the tree.
mutual
  unfolding tree_of

  pub Starts-tree_of :
      {p p' : Proc} {log : List (List ℕ)} → Starts p log p' → tree_of p' ≡ tree_of p
  Starts-tree_of (start name ts) = ap (node name) (forest_of-all_unborn ts)
  Starts-tree_of (create name st) = ap (node name) (StartsAny-forest_of st)
  Starts-tree_of (stop name ts e) = ap (node name) (sym (ap forest_of e ∙ forest_of-all_stopped ts))

  StartsAny-forest_of :
      {ps ps' : Procs} {log : List (List ℕ)} → StartsAny ps log ps' → forest_of ps' ≡ forest_of ps
  StartsAny-forest_of (here {p} {p'} {ps} st) = ap (λ t. cons t (forest_of ps)) (Starts-tree_of st)
  StartsAny-forest_of (there {p} st) = ap (cons (tree_of p)) (StartsAny-forest_of st)

mutual
  unfolding tree_of

  pub Runs-tree_of : {p p' : Proc} {log : List (List ℕ)} → Runs p log p' → tree_of p' ≡ tree_of p
  Runs-tree_of (wake name ts) = ap (node name) (forest_of-all_stopped ts)
  Runs-tree_of (child name st) = ap (node name) (RunsFirst-forest_of st)
  Runs-tree_of (exit name ts e) = ap (node name) (sym (ap forest_of e ∙ forest_of-all_exited ts))

  RunsFirst-forest_of :
      {ps ps' : Procs} {log : List (List ℕ)} → RunsFirst ps log ps' → forest_of ps' ≡ forest_of ps
  RunsFirst-forest_of (first {p} {p'} {ps} st) = ap (λ t. cons t (forest_of ps)) (Runs-tree_of st)
  RunsFirst-forest_of (next {t} st) = ap (cons t) (RunsFirst-forest_of st)

-- A name that is printed as starting is taken from those that have not started.
module _ (f : List ℕ → Bool) where
  mutual
    unfolding unstarted names

    pub Starts-count :
        {p p' : Proc} {log : List (List ℕ)}
        → Starts p log p'
        → count f log + count f (unstarted p') ≡ count f (unstarted p)
    Starts-count (start name ts) =
        sym (count-append f (name ∷ []) (unstarted_all (all_unborn ts)))
        ∙ ap (λ rest. count f (name ∷ rest)) (unstarted_all-all_unborn ts)
    Starts-count (create name st) = StartsAny-count st
    Starts-count (stop name ts e) =
        omega arith ∙ ap (count f) (sym (ap unstarted_all e ∙ unstarted_all-all_stopped ts))

    StartsAny-count :
        {ps ps' : Procs} {log : List (List ℕ)}
        → StartsAny ps log ps'
        → count f log + count f (unstarted_all ps') ≡ count f (unstarted_all ps)
    StartsAny-count (here {p} {p'} {ps} st) = omega (
      arith,
      Starts-count st,
      count-append f (unstarted p') (unstarted_all ps),
      count-append f (unstarted p) (unstarted_all ps),
    )
    StartsAny-count (there {p} {ps} {ps'} st) = omega (
      arith,
      StartsAny-count st,
      count-append f (unstarted p) (unstarted_all ps'),
      count-append f (unstarted p) (unstarted_all ps),
    )

-- A name that is printed as awake is the first of those that are not awake.
mutual
  unfolding asleep names

  pub Runs-asleep :
      {p p' : Proc} {log : List (List ℕ)} → Runs p log p' → asleep p ≡ log ++ asleep p'
  Runs-asleep (wake name ts) = ap (λ rest. name ∷ rest) (sym (asleep_all-all_stopped ts))
  Runs-asleep (child name st) = RunsFirst-asleep st
  Runs-asleep (exit name ts e) = ap asleep_all e ∙ asleep_all-all_exited ts

  RunsFirst-asleep :
      {ps ps' : Procs} {log : List (List ℕ)}
      → RunsFirst ps log ps'
      → asleep_all ps ≡ log ++ asleep_all ps'
  RunsFirst-asleep (first {p} {p'} {ps} {log} st) =
      ap (λ names. names ++ asleep_all ps) (Runs-asleep st)
      ∙ append_assoc log (asleep p') (asleep_all ps)
  RunsFirst-asleep (next st) = RunsFirst-asleep st
