-- ===== src/Exer4/Plist/Search.antt =====
-- The loops that only read the ring: the searches by id and the printing.
use cslab_os.Base.{
  ℕ, zero, suc, ◌<◌, ◌≡◌, refl, List, [], ◌∷◌, ◌++◌, arith, subst, sym, append_assoc, Bool,
  Bool-cases, inl, inr, find?, length, ne→==, eq→==, ◌≤◌,
}
use cslab_os.Base.Int.{ℤ}
use cslab_os.Exer4.Plist.Memory.{Addr, null, Proc, Heap, done, get-done}
use cslab_os.Exer4.Plist.Ring.{Cells, first, Ring, Linked-At, Distinct-first}
use cslab_os.Exer4.Plist.Ops.{
  has_id, find_loop, address_of, pid_of, find_process_from_id, get_pid_from_id, print_loop,
  print_list, print_list_with_pid, marks,
}
use cslab_os.Exer4.Plist.Delete.{on_proc}

-- The processes of a ring, from the head on.
abbrev pub procs : Cells → List Proc
procs [] = []
procs ((_, v) ∷ xs) = v ∷ procs xs

module _ (h : Heap) where
  -- One round of a loop over the ring: what `p` holds, and whether `p->next` closes the circle.
  find_loop-find? :
      (t : Proc → Bool) (k : ℕ) (xs : Cells) (p : Addr) (v : Proc) (ys : Cells)
      → Ring h (xs ++ (p, v) ∷ ys)
      → length ys < k
      → find_loop t k (first (xs ++ (p, v) ∷ ys) null) p h
        ≡ done (find? (on_proc t) ((p, v) ∷ ys)) h
  unfolding find_loop
  find_loop-find? t zero xs p v ys r fuel = absurd (omega arith)
  find_loop-find? t (suc k) xs p v [] r fuel =
      let at = Linked-At h _ xs p v [] _ r.linked in
      rw (get-done at, eq→== _ _ refl)
        (elim (Bool-cases (t v)) [ inl hit ↦ rw hit | inr other ↦ rw other ])
  find_loop-find? t (suc k) xs p v ((x, u) ∷ ys) r fuel =
      let at = Linked-At h _ xs p v ((x, u) ∷ ys) _ r.linked in
      rw (get-done at, ne→== _ _ (Distinct-first xs p v x u ys r.distinct))
        (elim (Bool-cases (t v)) [
          | inl hit ↦ rw hit
          | inr other ↦ rw other (
              subst
                (λ l. find_loop t k (first l null) x h ≡ done (find? (on_proc t) ((x, u) ∷ ys)) h)
                (append_assoc xs ((p, v) ∷ []) ((x, u) ∷ ys))
                (find_loop-find? t k (xs ++ (p, v) ∷ []) x u ys
                  (subst (Ring h) (sym (append_assoc xs ((p, v) ∷ []) ((x, u) ∷ ys))) r)
                  (omega arith)))
        ])

  print_loop-procs :
      (k : ℕ) (xs : Cells) (p : Addr) (v : Proc) (ys : Cells)
      → Ring h (xs ++ (p, v) ∷ ys)
      → length ys < k
      → print_loop k (first (xs ++ (p, v) ∷ ys) null) p h ≡ done (procs ((p, v) ∷ ys)) h
  unfolding print_loop
  print_loop-procs zero xs p v ys r fuel = absurd (omega arith)
  print_loop-procs (suc k) xs p v [] r fuel =
      let at = Linked-At h _ xs p v [] _ r.linked in rw (get-done at, eq→== _ _ refl)
  print_loop-procs (suc k) xs p v ((x, u) ∷ ys) r fuel =
      let at = Linked-At h _ xs p v ((x, u) ∷ ys) _ r.linked in
      rw (
        get-done at,
        ne→== _ _ (Distinct-first xs p v x u ys r.distinct),
        subst (λ l. print_loop k (first l null) x h ≡ done (procs ((x, u) ∷ ys)) h)
            (append_assoc xs ((p, v) ∷ []) ((x, u) ∷ ys))
            (print_loop-procs k (xs ++ (p, v) ∷ []) x u ys
              (subst (Ring h) (sym (append_assoc xs ((p, v) ∷ []) ((x, u) ∷ ys))) r) (omega arith)),
      )

  -- On a ring, with fuel for its nodes, `find_process_from_id` returns the address of the first node
  -- with the id, NULL if there is none, and changes nothing.
  pub find_process_from_id-find? :
      (id : ℤ) (fuel : ℕ) (xs : Cells)
      → Ring h xs
      → length xs ≤ fuel
      → find_process_from_id fuel (first xs null) id h
        ≡ done (address_of (find? (on_proc (has_id id)) xs)) h
  unfolding find_process_from_id
  find_process_from_id-find? id fuel [] r enough = refl
  find_process_from_id-find? id fuel ((p, v) ∷ xs) r enough =
      rw (
        ne→== p null r.linked.0.ne_null,
        find_loop-find? (has_id id) fuel [] p v xs r (omega arith),
      )

  -- On a ring, with fuel for its nodes, `get_pid_from_id` returns the pid of the first process with
  -- the id, 0 if there is none, and changes nothing.
  pub get_pid_from_id-find? :
      (id : ℤ) (fuel : ℕ) (xs : Cells)
      → Ring h xs
      → length xs ≤ fuel
      → get_pid_from_id fuel (first xs null) id h ≡ done (pid_of (find? (on_proc (has_id id)) xs)) h
  unfolding get_pid_from_id
  get_pid_from_id-find? id fuel [] r enough = refl
  get_pid_from_id-find? id fuel ((p, v) ∷ xs) r enough =
      rw (
        ne→== p null r.linked.0.ne_null,
        find_loop-find? (has_id id) fuel [] p v xs r (omega arith),
      )

  -- On a ring, with fuel for its nodes, `print_list_with_pid` prints each process once, from the head
  -- on, with the mark exactly on those of the given pid, and changes nothing.
  pub print_list_with_pid-marks :
      (current : ℕ) (fuel : ℕ) (xs : Cells)
      → Ring h xs
      → length xs ≤ fuel
      → print_list_with_pid fuel (first xs null) current h ≡ done (marks current (procs xs)) h
  unfolding print_list_with_pid
  print_list_with_pid-marks current fuel [] r enough = refl
  print_list_with_pid-marks current fuel ((p, v) ∷ xs) r enough =
      rw (ne→== p null r.linked.0.ne_null, print_loop-procs fuel [] p v xs r (omega arith))

  pub print_list-procs :
      (fuel : ℕ) (xs : Cells)
      → Ring h xs
      → length xs ≤ fuel
      → print_list fuel (first xs null) h ≡ done (procs xs) h
  unfolding print_list
  print_list-procs fuel [] r enough = refl
  print_list-procs fuel ((p, v) ∷ xs) r enough =
      rw (ne→== p null r.linked.0.ne_null, print_loop-procs fuel [] p v xs r (omega arith))
