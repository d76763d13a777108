-- ===== src/Exer2/Signals/Order.antt =====
-- The order in which the processes are continued.
use cslab_os.Base.{
  ℕ, ◌+◌, ◌≡◌, refl, sym, ap, ◌∙◌, Bool, List, ◌++◌, map, append_assoc, append-nil, arith, count,
  count-append,
}
use cslab_os.Exer2.Tree.{Tree}
use cslab_os.Exer2.TreeFile.Defs.{print_tree}
use cslab_os.Exer2.Signals.{
  Proc, exited, Starts, start, create, stop, Runs, wake, child, exit, Run, fork, starting, running,
}
use cslab_os.Exer2.Signals.Steps.{
  names, names-print_tree, tree_of, unstarted, asleep, Starts-tree_of, Runs-tree_of, Starts-count,
  Runs-asleep,
}

Starts-asleep :
    {p p' : Proc} {log : List (List ℕ)} → Starts p log p' → asleep p' ≡ names (tree_of p')
unfolding asleep names tree_of
Starts-asleep (start name ts) = refl
Starts-asleep (create name st) = refl
Starts-asleep (stop name ts e) = refl

Runs-unstarted : {p p' : Proc} {log : List (List ℕ)} → Runs p log p' → unstarted p' ≡ unstarted p
unfolding unstarted
Runs-unstarted (wake name ts) = refl
Runs-unstarted (child name st) = refl
Runs-unstarted (exit name ts e) = refl

module _ {root : Tree} where
  Run-tree_of :
      {started woken : List (List ℕ)} {p : Proc} → Run root started woken p → tree_of p ≡ root
  unfolding tree_of
  Run-tree_of fork = refl
  Run-tree_of (starting run st) = Starts-tree_of st ∙ Run-tree_of run
  Run-tree_of (running run st) = Runs-tree_of st ∙ Run-tree_of run

  Run-asleep :
      {started woken : List (List ℕ)} {p : Proc}
      → Run root started woken p
      → woken ++ asleep p ≡ names root
  unfolding asleep
  Run-asleep fork = refl
  Run-asleep (starting run st) = Starts-asleep st ∙ ap names (Starts-tree_of st ∙ Run-tree_of run)
  Run-asleep (running {p} {p'} {started} {woken} {log} run st) =
      append_assoc woken log (asleep p')
      ∙ ap (λ rest. woken ++ rest) (sym (Runs-asleep st))
      ∙ Run-asleep run

  Run-count :
      (f : List ℕ → Bool) {started woken : List (List ℕ)} {p : Proc}
      → Run root started woken p
      → count f started + count f (unstarted p) ≡ count f (names root)
  unfolding unstarted
  Run-count f fork = omega arith
  Run-count f (starting {started = started} {log = log} run st) =
      omega (arith, Run-count f run, Starts-count f st, count-append f started log)
  Run-count f (running run st) = omega (arith, Run-count f run, ap (count f) (Runs-unstarted st))

-- When all processes have exited: they were woken in the order in which `print_tree` prints the tree, and
-- as many processes of a name (or of any choice of names) as were woken had started before.
pub Run-print_tree :
    {root u : Tree} {started woken : List (List ℕ)}
    → (f : List ℕ → Bool) → Run root started woken (exited u)
    → (u ≡ root)
      × (woken ≡ map (λ line. line.1) (print_tree root 0))
      × (count f started ≡ count f woken)
unfolding asleep unstarted tree_of
Run-print_tree {root} {u} {started} {woken} f run =
    let order : woken ≡ names root = sym (append-nil woken) ∙ Run-asleep run in
    (
      Run-tree_of run,
      order ∙ sym (names-print_tree root 0),
      omega (arith, Run-count f run, ap (count f) order),
    )
