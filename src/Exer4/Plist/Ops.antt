-- ===== src/Exer4/Plist/Ops.antt =====
-- The functions of exer4/prio/plist.c, line by line (Earlier has what differs in exer4/sched and
-- exer4/shell).
-- `struct process_list **head` is the head's value as an argument and its new value as the result.
-- A loop takes fuel: a round for each node is enough. `malloc` is a parameter: the block that it
-- returns, its address (NULL if there is no memory) and the bytes that lie in it.
use cslab_os.Base.{
  ℕ, zero, suc, ◌+◌, Bool, Option, none, some, List, [], ◌∷◌, ◌++◌, ◌==◌, if◌then◌else◌, replicate,
  drop,
}
use cslab_os.Base.Int.{ℤ, pos, negsuc, beq}
use cslab_os.Exer4.Plist.Memory.{
  Addr, null, Proc, node, assign, exited, done, Command, return, starve, ◌>>=◌, ◌>>◌, get, set_next,
  set_prev, free,
}

pub record Block : Type 0 where
  pub addr : Addr
  pub bytes : List ℕ

-- The library's `strncpy`: `n` bytes, the source's up to its NUL and then zeros.
unfoldable pub strncpy : ℕ → List ℕ → List ℕ
strncpy zero src = []
strncpy (suc n) [] = replicate (suc n) 0
strncpy (suc n) (c ∷ src) = if c == 0 then replicate (suc n) 0 else c ∷ strncpy n src

-- `strncpy(node->name, name, 59)` on the 60 bytes of a new node: the last byte stays as it was.
unfoldable pub copy_name : List ℕ → List ℕ → List ℕ
copy_name old name = strncpy 59 name ++ drop 59 old

-- `Malloc`
unfoldable pub checked_malloc : Block → Command Addr
checked_malloc b = if b.addr == null then (λ h. exited (negsuc 0)) else return b.addr

-- node->prev->next = node->next; node->next->prev = node->prev;
unfoldable pub unlink : Addr → Command (Unit {0})
unlink p = do n ← get p; set_next n.prev n.next; m ← get p; set_prev m.next m.prev

unfoldable pub delete_loop : (Proc → Bool) → ℕ → Addr → Addr → Command Addr
delete_loop t zero head p = starve
delete_loop t (suc k) head p = do
  n ← get p
  if n.next == head then return head else do
    m ← get n.next
    if t m.proc then (do unlink n.next; free n.next; return head) else delete_loop t k head n.next

-- The text that `delete_from_list` and `delete_from_list_with_id` share but for the field compared.
unfoldable pub delete_where : (Proc → Bool) → ℕ → Addr → Command Addr
delete_where t fuel head = if head == null then return null else do
  n ← get head
  if t n.proc
      then (if n.next == head
          then (do free head; return null)
          else (do unlink head; free head; return n.next))
      else delete_loop t fuel head head

abbrev pub has_pid : ℕ → Proc → Bool
has_pid pid v = v.pid == pid

abbrev pub has_id : ℤ → Proc → Bool
has_id id v = beq v.id id

unfoldable pub delete_from_list : ℕ → Addr → ℕ → Command Addr
delete_from_list fuel head pid = delete_where (has_pid pid) fuel head

unfoldable pub delete_from_list_with_id : ℕ → Addr → ℤ → Command Addr
delete_from_list_with_id fuel head id = delete_where (has_id id) fuel head

abbrev pub new_proc : Block → ℤ → ℕ → List ℕ → Proc
new_proc b id pid name = record { id = id; pid = pid; name = copy_name b.bytes name }

unfoldable pub append_to_list_with_id : Block → Addr → ℤ → ℕ → List ℕ → Command Addr
append_to_list_with_id b head id pid name = do
  p ← checked_malloc b
  if head == null then (λ h. done p (assign h p (some (node (new_proc b id pid name) p p)))) else do
    old ← get head
    λ h. done tt (assign h p (some (node (new_proc b id pid name) head old.prev)))
    old' ← get head
    set_next old'.prev p
    set_prev head p
    return head

-- `nextID++` comes back with the head.
unfoldable pub append_to_list : Block → Addr → ℕ → ℕ → List ℕ → Command (Addr × ℕ)
append_to_list b head next_id pid name = do
  head' ← append_to_list_with_id b head (pos next_id) pid name
  return (head', next_id + 1)

-- do { if (test) return p; } while ((p = p->next) != list);
unfoldable pub find_loop : (Proc → Bool) → ℕ → Addr → Addr → Command (Option (Addr × Proc))
find_loop t zero list p = starve
find_loop t (suc k) list p = do
  n ← get p
  if t n.proc
      then return (some (p, n.proc))
      else if n.next == list
      then return none
      else find_loop t k list n.next

abbrev pub address_of : Option (Addr × Proc) → Addr
address_of none = null
address_of (some (p, _)) = p

abbrev pub pid_of : Option (Addr × Proc) → ℕ
pid_of none = 0
pid_of (some (_, v)) = v.pid

unfoldable pub find_process_from_id : ℕ → Addr → ℤ → Command Addr
find_process_from_id fuel list id =
    if list == null
    then return null
    else do r ← find_loop (has_id id) fuel list list; return (address_of r)

unfoldable pub get_pid_from_id : ℕ → Addr → ℤ → Command ℕ
get_pid_from_id fuel list id =
    if list == null
    then return 0
    else do r ← find_loop (has_id id) fuel list list; return (pid_of r)

-- The lines that the two printing functions write, as the process of each.
unfoldable pub print_loop : ℕ → Addr → Addr → Command (List Proc)
print_loop zero list p = starve
print_loop (suc k) list p = do
  n ← get p
  if n.next == list
      then return (n.proc ∷ [])
      else do rest ← print_loop k list n.next; return (n.proc ∷ rest)

unfoldable pub print_list : ℕ → Addr → Command (List Proc)
print_list fuel list = if list == null then return [] else print_loop fuel list list

-- A line, with the mark `[*]` of the current process.
abbrev pub marks : ℕ → List Proc → List (Proc × Bool)
marks current [] = []
marks current (v ∷ vs) = (v, has_pid current v) ∷ marks current vs

unfoldable pub print_list_with_pid : ℕ → Addr → ℕ → Command (List (Proc × Bool))
print_list_with_pid fuel list current =
    if list == null then return [] else do vs ← print_loop fuel list list; return (marks current vs)
