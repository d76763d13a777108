-- ===== src/Exer4/Plist/Earlier.antt =====
-- exer4/shell/plist.c: `append_to_list` before `append_to_list_with_id` was taken out of it. The file
-- exer4/sched/plist.c has the same function.
use cslab_os.Base.{ℕ, ◌+◌, ◌≡◌, refl, List, some, ◌==◌, if◌then◌else◌, Bool-cases, inl, inr}
use cslab_os.Base.Int.{pos}
use cslab_os.Exer4.Plist.Memory.{
  Addr, null, node, Heap, assign, Run, done, segv, exited, out_of_fuel, Command, return,
  continue_with, ◌>>=◌, ◌>>◌, get, set_next, set_prev,
}
use cslab_os.Exer4.Plist.Ops
use cslab_os.Exer4.Plist.Ops.{Block, new_proc, checked_malloc, append_to_list_with_id}

-- `nextID++` comes back with the head.
unfoldable pub append_to_list : Block → Addr → ℕ → ℕ → List ℕ → Command (Addr × ℕ)
append_to_list b head next_id pid name = do
  p ← checked_malloc b
  if head == null
      then (λ h.
          done (p, next_id + 1) (assign h p (some (node (new_proc b (pos next_id) pid name) p p))))
      else do
        old ← get head
        λ h. done tt (assign h p (some (node (new_proc b (pos next_id) pid name) head old.prev)))
        old' ← get head
        set_next old'.prev p
        set_prev head p
        return (head, next_id + 1)

-- Two commands that go on alike, but that one has `last` after each of its ends.
go_alike :
    {A B C : Type 0} (m : Run A) (k : A → Command C) (k' : A → Command B) (last : B → Command C)
    → ((a : A) (h : Heap) → k a h ≡ continue_with last (k' a h))
    → continue_with k m ≡ continue_with last (continue_with k' m)
go_alike (done a h) k k' last alike = alike a h
go_alike segv k k' last alike = refl
go_alike (exited c) k k' last alike = refl
go_alike out_of_fuel k k' last alike = refl

-- On every heap, a ring or not, this `append_to_list` does what that of exer4/prio/plist.c does, and ends
-- in the same way.
pub append_to_list-append_to_list :
    (b : Block) (head : Addr) (next_id pid : ℕ) (name : List ℕ) (h : Heap)
    → append_to_list b head next_id pid name h ≡ Ops.append_to_list b head next_id pid name h
unfolding append_to_list Ops.append_to_list append_to_list_with_id
append_to_list-append_to_list b head next_id pid name h =
    go_alike (checked_malloc b h) _ _ _ (λ p h'. elim (Bool-cases (head == null)) [
      | inl empty ↦ rw empty refl
      | inr filled ↦ rw filled (
          go_alike (get head h') _ _ _ (λ old h''.
            go_alike
              (get head
                (assign h'' p (some (node (new_proc b (pos next_id) pid name) head old.prev))))
              _ _ _
              (λ old' h1.
                go_alike (set_next old'.prev p h1) _ _ _
                  (λ u h2. go_alike (set_prev head p h2) _ _ _ (λ u' h3. refl)))))
    ])
