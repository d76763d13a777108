-- ===== src/Exer2/ExprPipe/Value.antt =====
-- What is printed is the value of the expression, and nothing is printed for a tree that is none. Where
-- a result does not fit into an `int`, the value wraps around.
use cslab_os.Base.{
  ℕ, ◌≡◌, refl, Bool, true, false, List, [], ◌∷◌, subst, ◌⊎◌, sym, arith, if◌then◌else◌, inl, inr,
}
use cslab_os.Base.Int.{ℤ, ◌+ℤ◌, ◌*ℤ◌, is_int, to_int, to_int-is_int}
use cslab_os.Exer2.Tree.{Tree, node, nil, cons}
use cslab_os.Text.{atoi}
use cslab_os.Text.Strtol.{clamp, clamp-is_int}
use cslab_os.Exer2.ExprPipe.Defs.{
  Process, writes, silent, early, System, write_result, calculate, compute, join, fork_procs,
  outcome, prints, main_outcome,
}

-- The value of an expression whose results all fit into an `int`, as a relation.
pub data Denotes : Tree → ℤ → Type 0 where
  leaf : (name : List ℕ) → is_int (atoi name) ≡ true → Denotes (node name nil) (atoi name)
  product :
      (cs : List ℕ) {a b : Tree} {x y : ℤ}
      → Denotes a x
      → Denotes b y
      → is_int (x *ℤ y) ≡ true
      → Denotes (node (42 ∷ cs) (cons a (cons b nil))) (x *ℤ y)
  sum :
      (cs : List ℕ) {a b : Tree} {x y : ℤ}
      → Denotes a x
      → Denotes b y
      → is_int (x +ℤ y) ≡ true
      → Denotes (node (43 ∷ cs) (cons a (cons b nil))) (x +ℤ y)

-- The value that a tree is given by `int`s that wrap around, where nothing is tested for an overflow. It
-- has none on a name that is no operator and on a node with another number of children.
pub data Computes : Tree → ℤ → Type 0 where
  leaf : (name : List ℕ) → Computes (node name nil) (to_int (clamp (atoi name)))
  product :
      (cs : List ℕ) {a b : Tree} {x y : ℤ}
      → Computes a x
      → Computes b y
      → Computes (node (42 ∷ cs) (cons a (cons b nil))) (to_int (x *ℤ y))
  sum :
      (cs : List ℕ) {a b : Tree} {x y : ℤ}
      → Computes a x
      → Computes b y
      → Computes (node (43 ∷ cs) (cons a (cons b nil))) (to_int (x +ℤ y))

module _ (sys : System) (forks : (name : List ℕ) → sys.can_fork name ≡ true)
    (succeeds : (name : List ℕ) → sys.can_write name ≡ true) where
  fork_procs-Denotes : {t : Tree} {z : ℤ} → Denotes t z → fork_procs sys t ≡ writes z
  unfolding fork_procs write_result join compute calculate
  fork_procs-Denotes (leaf name fits) =
      rw (clamp-is_int (atoi name) fits, to_int-is_int (atoi name) fits, succeeds name) refl
  fork_procs-Denotes (product cs da db fits) =
      rw
        (
          fork_procs-Denotes da,
          fork_procs-Denotes db,
          forks (42 ∷ cs),
          succeeds (42 ∷ cs),
          to_int-is_int _ fits,
        )
        refl
  fork_procs-Denotes (sum cs da db fits) =
      rw
        (
          fork_procs-Denotes da,
          fork_procs-Denotes db,
          forks (43 ∷ cs),
          succeeds (43 ∷ cs),
          to_int-is_int _ fits,
        )
        refl

  -- When every `pipe`, `malloc`, `fork` and `write` succeeds and the tree is an expression, of names that
  -- start with `*` or `+` on nodes with two children, whose results all fit into an `int`, the program
  -- prints the value of the expression.
  pub main_outcome-Denotes : {t : Tree} {z : ℤ} → Denotes t z → main_outcome sys t ≡ prints z
  unfolding main_outcome
  main_outcome-Denotes d = rw (fork_procs-Denotes d) refl

write_result-writes :
    (sys : System) (name : List ℕ) (r : ℤ) {z : ℤ} → write_result sys name r ≡ writes z → r ≡ z
unfolding write_result
write_result-writes sys name r e = ground (arith, e)

-- The operator, and its result.
calculate-writes :
    (sys : System) (c : ℕ) (cs : List ℕ) (x y : ℤ) {z : ℤ}
    → calculate sys (c ∷ cs) x y ≡ writes z
    → ((c ≡ 42) × (to_int (x *ℤ y) ≡ z)) ⊎ ((c ≡ 43) × (to_int (x +ℤ y) ≡ z))
unfolding calculate write_result
calculate-writes sys c cs x y e = ground (arith, e)

calculate-Computes :
    (sys : System) (name : List ℕ) {x y z : ℤ} {a b : Tree}
    → Computes a x
    → Computes b y
    → calculate sys name x y ≡ writes z
    → Computes (node name (cons a (cons b nil))) z
unfolding calculate
calculate-Computes sys [] da db e = absurd (ground (arith, e))
calculate-Computes sys (c ∷ cs) {x} {y} {z} {a} {b} da db e =
    elim (calculate-writes sys c cs x y e) [
      | inl (star, same) ↦
          subst (λ d. Computes (node (d ∷ cs) (cons a (cons b nil))) z) (sym star)
            (subst (λ r. Computes (node (42 ∷ cs) (cons a (cons b nil))) r) same (product cs da db))
      | inr (plus, same) ↦
          subst (λ d. Computes (node (d ∷ cs) (cons a (cons b nil))) z) (sym plus)
            (subst (λ r. Computes (node (43 ∷ cs) (cons a (cons b nil))) r) same (sum cs da db))
    ]

join-writes :
    (sys : System) (name : List ℕ) (p q : Process) {z : ℤ}
    → join sys name p q ≡ writes z
    → (x : ℤ) × (y : ℤ) × (p ≡ writes x) × (q ≡ writes y) × (calculate sys name x y ≡ writes z)
unfolding join compute
join-writes sys name (writes x) (writes y) e = (x, y, refl, refl, e)
join-writes sys name (writes x) silent e = absurd (ground (arith, e))
join-writes sys name (writes x) early e = absurd (ground (arith, e))
join-writes sys name silent (writes y) e = absurd (ground (arith, e))
join-writes sys name silent silent e = absurd (ground (arith, e))
join-writes sys name silent early e = absurd (ground (arith, e))
join-writes sys name early (writes y) e = absurd (ground (arith, e))
join-writes sys name early silent e = absurd (ground (arith, e))
join-writes sys name early early e = absurd (ground (arith, e))

can_fork-writes :
    (b : Bool) {p : Process} {z : ℤ} → (if b then p else early) ≡ writes z → p ≡ writes z
can_fork-writes true e = e
can_fork-writes false e = absurd (ground (arith, e))

fork_procs-writes : (sys : System) (t : Tree) {z : ℤ} → fork_procs sys t ≡ writes z → Computes t z
unfolding fork_procs
fork_procs-writes sys (node name nil) {z} e =
    subst (λ r. Computes (node name nil) r) (write_result-writes sys name _ e) (leaf name)
fork_procs-writes sys (node name (cons a nil)) e = absurd (ground (arith, e))
fork_procs-writes sys (node name (cons a (cons b nil))) e =
    let (x, y, ea, eb, value) =
      join-writes sys name (fork_procs sys a) (fork_procs sys b)
        (can_fork-writes (sys.can_fork name) e) in
    calculate-Computes sys name (fork_procs-writes sys a ea) (fork_procs-writes sys b eb) value
fork_procs-writes sys (node name (cons a (cons b (cons c cs)))) e = absurd (ground (arith, e))

outcome-prints : (p : Process) {z : ℤ} → outcome p ≡ prints z → p ≡ writes z
outcome-prints p e = ground (arith, e)

-- Whatever calls of the system fail: what the program prints is the value of the tree, computed with
-- `int`s that wrap around. So a name that is no operator, a node with another number of children or a
-- call that fails ends the program without a result.
pub main_outcome-prints :
    (sys : System) (t : Tree) {z : ℤ} → main_outcome sys t ≡ prints z → Computes t z
unfolding main_outcome
main_outcome-prints sys t e = fork_procs-writes sys t (outcome-prints _ e)
