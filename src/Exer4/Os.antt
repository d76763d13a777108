-- ===== src/Exer4/Os.antt =====
-- What the three schedulers of exer4 use of the operating system, and how they run: on their global
-- variables and a log of the calls made so far. What a call answers is the system's choice.
use cslab_os.Base.{ℕ, Bool, Option, none, some, List, ◌∷◌, if◌then◌else◌}
use cslab_os.Base.Int.{ℤ, negsuc}
use cslab_os.ProcCommon.{Status}
use cslab_os.Exer4.Plist.Memory.{Proc}

pub data Signal : Type 0 where
  sigcont sigstop sigkill : Signal

pub data Call : Type 0 where
  kill : ℕ → Signal → Call
  alarm : ℕ → Call
  print : List (Proc × Bool) → Call
  slain : ℕ → Call
  forked : Option ℕ → Call

-- `kill_ok`: does `kill` return 0; `fork`: the pid of the child, `none` for -1; `malloc`: the bytes
-- of a new block, `none` for NULL. Each may depend on all that happened before.
pub record Os : Type 0 where
  pub kill_ok : List Call → ℕ → Signal → Bool
  pub fork : List Call → Option ℕ
  pub malloc : List Call → Option (List ℕ)

-- A call of `waitpid` that does not return 0: a child's pid and status, or -1.
pub data Wait : Type 0 where
  child : ℕ → Status → Wait
  failed : Wait

pub record World (S : Type 0) : Type 0 where
  pub vars : S
  pub log : List Call

-- How a program ends before its time: a call of `exit`, or a wait for a child for ever.
pub data End : Type 0 where
  exit_with : ℤ → End
  wait_forever : End

-- `aborted` is a failed `assert`, `segv` an access through NULL.
pub data Outcome (S A : Type 0) : Type 0 where
  running : A → World S → Outcome S A
  ended : End → World S → Outcome S A
  aborted : Outcome S A
  segv : Outcome S A

abbrev pub Act : Type 0 → Type 0 → Type 0
Act S A = World S → Outcome S A

module _ {S : Type 0} where
  abbrev pub then_run : {A B : Type 0} → (A → Act S B) → Outcome S A → Outcome S B
  then_run k (running a w) = k a w
  then_run k (ended e w) = ended e w
  then_run k aborted = aborted
  then_run k segv = segv

  infixl 5 ◌>>=◌ ◌>>◌
  abbrev pub ◌>>=◌ : {A B : Type 0} → Act S A → (A → Act S B) → Act S B
  ◌>>=◌ m k w = then_run k (m w)

  abbrev pub ◌>>◌ : {A B : Type 0} → Act S A → Act S B → Act S B
  ◌>>◌ m k w = then_run (λ _. k) (m w)

  abbrev pub pure : {A : Type 0} → A → Act S A
  pure a w = running a w

  abbrev pub exit : {A : Type 0} → ℤ → Act S A
  exit c w = ended (exit_with c) w

  abbrev pub note : Call → Act S (Unit {0})
  note c w = running tt (record w { log = c ∷ w.log })

  abbrev pub set_vars : S → Act S (Unit {0})
  set_vars s w = running tt (record w { vars = s })

  -- `if (kill(pid, sig) < 0) { perror(..); exit(-1); }`
  unfoldable pub checked_kill : Os → ℕ → Signal → Act S (Unit {0})
  checked_kill os pid sig w =
      if os.kill_ok w.log pid sig then note (kill pid sig) w else ended (exit_with (negsuc 0)) w

  -- `Malloc`, with the bytes that lie in the block
  unfoldable pub checked_malloc : Os → Act S (List ℕ)
  checked_malloc os w = elim (os.malloc w.log) [
    | none ↦ ended (exit_with (negsuc 0)) w
    | some b ↦ running b w
  ]
