-- ===== src/Exer4/Plist/Memory.antt =====
-- The heap that plist.c works on: `struct process_list` nodes at addresses, and commands over it.
use cslab_os.Base.{ℕ, ◌≡◌, ◌≢◌, Option, none, some, List, arith, ◌==◌, if◌then◌else◌, ne→==}
use cslab_os.Base.Int.{ℤ}

abbrev pub Addr : Type 0
Addr = ℕ

abbrev pub null : Addr
null = 0

-- What a node says of a process; `name` holds the bytes of `char name[60]`.
pub record Proc : Type 0 where
  pub id : ℤ
  pub pid : ℕ
  pub name : List ℕ

-- `struct process_list`
pub record Node : Type 0 where
  pub proc : Proc
  pub next : Addr
  pub prev : Addr

abbrev pub node : Proc → Addr → Addr → Node
node v q b = record { proc = v; next = q; prev = b }

-- `none` where no node is allocated
abbrev pub Heap : Type 0
Heap = Addr → Option Node

-- Another cell at one address.
unfoldable pub assign : (heap : Heap) (target : Addr) (cell : Option Node) → Heap
assign heap target cell q = if q == target then cell else heap q

-- `segv` is an access through NULL or through a freed address, `exited` a call of `exit`.
pub data Run (A : Type 0) : Type 0 where
  done : A → Heap → Run A
  segv : Run A
  exited : ℤ → Run A
  out_of_fuel : Run A

abbrev pub Command : Type 0 → Type 0
Command A = Heap → Run A

abbrev pub return : {A : Type 0} (a : A) → Command A
return = done

abbrev pub starve : {A : Type 0} → Command A
starve h = out_of_fuel

module _ {A B : Type 0} where
  abbrev pub continue_with : (A → Command B) → Run A → Run B
  continue_with k (done a h) = k a h
  continue_with k segv = segv
  continue_with k (exited c) = exited c
  continue_with k out_of_fuel = out_of_fuel

  abbrev pub ◌>>=◌ : Command A → (A → Command B) → Command B
  ◌>>=◌ m k h = continue_with k (m h)

  abbrev pub ◌>>◌ : Command A → Command B → Command B
  ◌>>◌ m k h = continue_with (λ _. k) (m h)

  infixl 5 ◌>>=◌ ◌>>◌

-- `*p`
unfoldable pub get : Addr → Command Node
get p h = if p == null then segv else elim (h p) [ none ↦ segv | some n ↦ done n h ]

-- `p->next = q` and `p->prev = q`
unfoldable pub set_next : (p q : Addr) → Command (Unit {0})
set_next p q = do old ← get p; λ h. done tt (assign h p (some (record old { next = q })))

unfoldable pub set_prev : Addr → Addr → Command (Unit {0})
set_prev p q = do n ← get p; λ h. done tt (assign h p (some (record n { prev = q })))

unfoldable pub free : (p : Addr) → Command (Unit {0})
free p = do n ← get p; λ h. done tt (assign h p none)

-- `p` is the address of the node `n`.
pub record At (h : Heap) (p : Addr) (n : Node) : Type 0 where
  pub ne_null : p ≢ null
  pub holds : h p ≡ some n

module _ {h : Heap} {p : Addr} {n : Node} (at : At h p n) where
  pub get-done : get p h ≡ done n h
  unfolding get
  get-done = rw (ne→== p 0 at.ne_null, at.holds)

  pub set_next-done :
      (q : Addr) → set_next p q h ≡ done tt (assign h p (some (record n { next = q })))
  unfolding set_next
  set_next-done q = rw get-done

  pub set_prev-done :
      (q : Addr) → set_prev p q h ≡ done tt (assign h p (some (record n { prev = q })))
  unfolding set_prev
  set_prev-done q = rw get-done

  pub free-done : free p h ≡ done tt (assign h p none)
  unfolding free
  free-done = rw get-done

  pub At-assign : (q : Addr) (c : Option Node) → p ≢ q → At (assign h q c) p n
  unfolding assign
  At-assign q c ne = record { ne_null = at.ne_null; holds = ground arith }

  pub At-assign_self : (m : Node) → At (assign h p (some m)) p m
  unfolding assign
  At-assign_self m = record { ne_null = at.ne_null; holds = ground arith }

pub At-fresh : (h : Heap) (p : Addr) (n : Node) → p ≢ null → At (assign h p (some n)) p n
unfolding assign
At-fresh h p n ne = record { ne_null = ne; holds = ground arith }

-- Total correctness of a run: it ends, with no bad access, in a state with the postcondition.
pub data Ends {A : Type 0} (P : A → Heap → Type 0) : Run A → Type 0 where
  ends : {a : A} {h : Heap} → P a h → Ends P (done a h)

module _ {A B : Type 0} {P : A → Heap → Type 0} {Q : B → Heap → Type 0} where
  pub Ends-then :
      {r : Run A} {k : A → Command B}
      → Ends P r
      → ((a : A) (h : Heap) → P a h → Ends Q (k a h))
      → Ends Q (continue_with k r)
  Ends-then (ends p) rest = rest _ _ p

pub Ends-mono :
    {A : Type 0} {P Q : A → Heap → Type 0} {r : Run A}
    → Ends P r
    → ((a : A) (h : Heap) → P a h → Q a h)
    → Ends Q r
Ends-mono (ends p) weaken = ends (weaken _ _ p)

-- `m >> (n >> k)` is `(m >> n) >> k`.
pub Ends-assoc :
    {A B C : Type 0} {Q : C → Heap → Type 0} (r : Run A) (j : A → Command B) (k : B → Command C)
    → Ends Q (continue_with k (continue_with j r))
    → Ends Q (continue_with (λ a h. continue_with k (j a h)) r)
Ends-assoc (done a h) j k e = e
Ends-assoc segv j k e = e
Ends-assoc (exited c) j k e = e
Ends-assoc out_of_fuel j k e = e
