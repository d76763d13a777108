-- ===== src/Exer2/ExprRv/Value.antt =====
-- The result that is printed is the value of the expression, in one byte.
use native.Mathlib.Nat.{add-mod, add-mul, mul_assoc, mul_comm, mod-add-div, add-mul-mod_self_left}
use cslab_os.Base.{
  ℕ, ◌^◌, ◌<◌, ap, sym, ◌∙◌, ◌/◌, ◌+◌, ◌*◌, ◌%◌, ◌<◌, ◌≡◌, refl, Bool, true, some, List, ◌∷◌,
}
use cslab_os.Base.Int.{pos}
use cslab_os.Exer2.Tree.{Tree, node, nil, cons}
use cslab_os.Text.{atoi}
use cslab_os.Exer2.ExprRv.Defs.{exits, low_byte, combine, fork_procs, printed}

-- The value of an expression over the natural numbers, as a relation.
pub data Denotes : Tree → ℕ → Type 0 where
  leaf : (name : List ℕ) (n : ℕ) → atoi name ≡ pos n → n < 2 ^ 31 → Denotes (node name nil) n
  product :
      (cs : List ℕ) {a b : Tree} {m n : ℕ}
      → Denotes a m
      → Denotes b n
      → Denotes (node (42 ∷ cs) (cons a (cons b nil))) (m * n)
  sum :
      (cs : List ℕ) {a b : Tree} {m n : ℕ}
      → Denotes a m
      → Denotes b n
      → Denotes (node (43 ∷ cs) (cons a (cons b nil))) (m + n)

mod-mul : (a c : ℕ) → a % 256 * c % 256 ≡ a * c % 256
mod-mul a c =
    let split : a * c ≡ a % 256 * c + 256 * (a / 256 * c) =
      ap (λ (t : ℕ). t * c) (sym (mod-add-div a 256))
      ∙ add-mul (a % 256) (256 * (a / 256)) c
      ∙ ap (λ (t : ℕ). a % 256 * c + t) (mul_assoc 256 (a / 256) c) in
    sym (ap (λ (t : ℕ). t % 256) split ∙ add-mul-mod_self_left (a % 256 * c) 256 (a / 256 * c))

mul-mod : (a b : ℕ) → a % 256 * (b % 256) % 256 ≡ a * b % 256
mul-mod a b =
    mod-mul a (b % 256)
    ∙ ap (λ (t : ℕ). t % 256) (mul_comm a (b % 256))
    ∙ mod-mul b a
    ∙ ap (λ (t : ℕ). t % 256) (mul_comm b a)

fork_procs-value :
    (can_fork : List ℕ → Bool)
    → ((name : List ℕ) → can_fork name ≡ true)
    → {t : Tree} {n : ℕ} → Denotes t n
    → fork_procs can_fork t ≡ exits (n % 256)
unfolding fork_procs combine low_byte
fork_procs-value can_fork forks (leaf name n e fits) = rw e refl
fork_procs-value can_fork forks (product cs {a} {b} {m} {n} da db) =
    rw (fork_procs-value can_fork forks da, fork_procs-value can_fork forks db, forks (42 ∷ cs))
      (ap exits (mul-mod m n))
fork_procs-value can_fork forks (sum cs {a} {b} {m} {n} da db) =
    rw (fork_procs-value can_fork forks da, fork_procs-value can_fork forks db, forks (43 ∷ cs))
      (ap exits (sym (add-mod m n 256)))

-- When every `malloc` and `fork` succeeds and the tree is an expression, of names that start with `*`
-- or `+` on nodes with two children, and on leaves of numbers that are not negative and fit into an
-- `int`, the program prints the value of the expression modulo 256.
pub printed-value :
    (can_fork : List ℕ → Bool) {t : Tree} {n : ℕ}
    → ((name : List ℕ) → can_fork name ≡ true)
    → Denotes t n
    → printed can_fork t ≡ some (n % 256)
unfolding printed
printed-value can_fork forks d = rw (fork_procs-value can_fork forks d, printed) refl
