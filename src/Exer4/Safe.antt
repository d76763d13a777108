-- ===== src/Exer4/Safe.antt =====
-- Runs of a scheduler that neither fail an assertion nor follow NULL, and rules for them.
use cslab_os.Base.{ℕ, ◌≡◌, refl, false, none, List, ◌∷◌, inl, inr, Bool-cases, Option-cases, subst}
use cslab_os.Base.Int.{negsuc}
use cslab_os.Exer4.Os.{
  Os, Signal, kill, World, End, exit_with, Outcome, running, ended, then_run, Act, checked_kill,
  checked_malloc,
}

-- The ways in which a checked system call ends the program: it was refused, and the status is -1.
pub data IsRefused {S : Type 0} (os : Os) (w : World S) : End → Type 0 where
  no_kill :
      (pid : ℕ) (sig : Signal)
      → os.kill_ok w.log pid sig ≡ false
      → IsRefused os w (exit_with (negsuc 0))
  no_memory : os.malloc w.log ≡ none → IsRefused os w (exit_with (negsuc 0))

-- The run fails no assertion and follows no NULL. It returns with the postcondition `P`, or it ends
-- the program, because the system refused a checked call or as `X` allows.
pub data IsSafe {S A : Type 0} (os : Os) (X : End → World S → Type 0) (P : A → World S → Type 0)
    : Outcome S A → Type 0 where
  goes_on : {a : A} {w : World S} → P a w → IsSafe os X P (running a w)
  refused : {e : End} {w : World S} → IsRefused os w e → IsSafe os X P (ended e w)
  leaves : {e : End} {w : World S} → X e w → IsSafe os X P (ended e w)

-- No other end.
abbrev pub Never : {S : Type 0} → End → World S → Type 0
Never e w = ⊥

module _ {S A : Type 0} {os : Os} {X : End → World S → Type 0} {P : A → World S → Type 0} where
  pub IsSafe-then :
      {B : Type 0} {Q : B → World S → Type 0} {r : Outcome S A} {k : A → Act S B}
      → IsSafe os X P r
      → ((a : A) (w : World S) → P a w → IsSafe os X Q (k a w))
      → IsSafe os X Q (then_run k r)
  IsSafe-then (goes_on p) rest = rest _ _ p
  IsSafe-then (refused x) rest = refused x
  IsSafe-then (leaves x) rest = leaves x

  pub IsSafe-mono :
      {Q : A → World S → Type 0} {r : Outcome S A}
      → IsSafe os X P r
      → ((a : A) (w : World S) → P a w → Q a w)
      → IsSafe os X Q r
  IsSafe-mono (goes_on p) weaken = goes_on (weaken _ _ p)
  IsSafe-mono (refused x) weaken = refused x
  IsSafe-mono (leaves x) weaken = leaves x

  -- More ends are allowed.
  pub IsSafe-ends :
      {Y : End → World S → Type 0} {r : Outcome S A}
      → IsSafe os X P r
      → ((e : End) (w : World S) → X e w → Y e w)
      → IsSafe os Y P r
  IsSafe-ends (goes_on p) more = goes_on p
  IsSafe-ends (refused x) more = refused x
  IsSafe-ends (leaves x) more = leaves (more _ _ x)

  -- A run with no end of its own may stand where one is allowed.
  pub IsSafe-Never : {r : Outcome S A} → IsSafe os Never P r → IsSafe os X P r
  IsSafe-Never (goes_on p) = goes_on p
  IsSafe-Never (refused x) = refused x
  IsSafe-Never (leaves x) = absurd x

  -- The postcondition may also say how the run got there.
  pub IsSafe-ran :
      {r : Outcome S A} → IsSafe os X P r → IsSafe os X (λ a w. P a w × (r ≡ running a w)) r
  IsSafe-ran (goes_on p) = goes_on (p, refl)
  IsSafe-ran (refused x) = refused x
  IsSafe-ran (leaves x) = leaves x

abbrev AtReturn : {S A : Type 0} → (A → World S → Type 0) → Outcome S A → Type 0
AtReturn P (running a w) = P a w
AtReturn P _ = Unit

-- The postcondition of a run that is known to have returned.
pub IsSafe-running :
    {S A : Type 0} {os : Os} {X : End → World S → Type 0} {P : A → World S → Type 0}
    {r : Outcome S A} {a : A} {w : World S}
    → IsSafe os X P r
    → r ≡ running a w
    → P a w
IsSafe-running {P} (goes_on p) e = subst (AtReturn P) e p
IsSafe-running (refused x) e = cc
IsSafe-running (leaves x) e = cc

module _ {S B : Type 0} {X : End → World S → Type 0} {Q : B → World S → Type 0} (os : Os)
    (w : World S) where
  pub checked_kill-IsSafe :
      (pid : ℕ) (sig : Signal) (k : Unit {0} → Act S B)
      → IsSafe os X Q (k tt (record w { log = kill pid sig ∷ w.log }))
      → IsSafe os X Q (then_run k (checked_kill os pid sig w))
  unfolding checked_kill
  checked_kill-IsSafe pid sig k rest = elim (Bool-cases (os.kill_ok w.log pid sig)) [
    | inl done ↦ rw done rest
    | inr e ↦ rw e (refused (no_kill pid sig e))
  ]

  pub checked_malloc-IsSafe :
      (k : List ℕ → Act S B)
      → ((bytes : List ℕ) → IsSafe os X Q (k bytes w))
      → IsSafe os X Q (then_run k (checked_malloc os w))
  unfolding checked_malloc
  checked_malloc-IsSafe k rest = elim (Option-cases (os.malloc w.log)) [
    | inl full ↦ rw (full, then_run) (refused (no_memory full))
    | inr (bytes, got) ↦ rw (got, then_run) (rest bytes)
  ]

pub checked_kill-IsSafe_last :
    {S : Type 0} {X : End → World S → Type 0} (os : Os) (w : World S)
    {P : Unit {0} → World S → Type 0} (pid : ℕ) (sig : Signal)
    → P tt (record w { log = kill pid sig ∷ w.log })
    → IsSafe os X P (checked_kill os pid sig w)
unfolding checked_kill
checked_kill-IsSafe_last os w pid sig p = elim (Bool-cases (os.kill_ok w.log pid sig)) [
  | inl done ↦ rw done (goes_on p)
  | inr e ↦ rw e (refused (no_kill pid sig e))
]
