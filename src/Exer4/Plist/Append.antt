-- ===== src/Exer4/Plist/Append.antt =====
-- `append_to_list` and `append_to_list_with_id` put a new node at the end of the ring.
use cslab_os.Base.{ℕ, ◌+◌, ◌≡◌, ◌≢◌, refl, false, some, List, [], ◌∷◌, ◌++◌, arith, ne→==}
use cslab_os.Base.Int.{ℤ, pos, negsuc}
use cslab_os.Exer4.Plist.Memory.{
  Addr, null, Proc, node, Heap, assign, exited, Ends, ends, Ends-then, get-done, set_next-done,
  set_prev-done, At-assign, At-fresh,
}
use cslab_os.Exer4.Plist.Ring.{
  Cells, mem, first, last, Ring, Linked-assign, Linked-set_last, Linked-set_first, Ring-snoc,
  Replaces, Ring-snoc, ne-last, ne-first, Replaces-snoc,
}
use cslab_os.Exer4.Plist.Ops.{
  Block, new_proc, checked_malloc, append_to_list_with_id, append_to_list,
}

abbrev pub Appended : Heap → Cells → Addr × Proc → Addr → Heap → Type 0
Appended h xs c p g =
    (p ≡ first (xs ++ c ∷ []) null) × Ring g (xs ++ c ∷ []) × Replaces xs (xs ++ c ∷ []) h g

module _ (h : Heap) (b : Block) (id : ℤ) (pid : ℕ) (name : List ℕ) where
  pub append_to_list_with_id-Ring :
      (xs : Cells)
      → Ring h xs
      → b.addr ≢ null
      → mem b.addr xs ≡ false
      → Ends
          (Appended h xs (b.addr, new_proc b id pid name))
          (append_to_list_with_id b (first xs null) id pid name h)
  unfolding append_to_list_with_id checked_malloc assign
  append_to_list_with_id-Ring [] r got fresh = rw (ne→== b.addr null got) (
      ends (
        refl,
        record {
          distinct = (refl, tt);
          linked = (record { ne_null = got; holds = ground arith }, tt);
        },
        ground arith,
      ))
  append_to_list_with_id-Ring ((x, u) ∷ xs) r got fresh =
      let p = b.addr in
      let v = new_proc b id pid name in
      let old = r.linked.0 in
      let h0 = assign h p (some (node v x (last x xs))) in
      let l0 =
        Linked-assign h (last x xs) ((x, u) ∷ xs) x p (some (node v x (last x xs))) r.linked
          fresh in
      let (n, at, l1) = Linked-set_last h0 (last x xs) x u xs x p l0 r.distinct in
      let h1 = assign h0 (last x xs) (some (record n { next = p })) in
      let l2 = Linked-set_first h1 (last x xs) x u xs p p l1 r.distinct.0 in
      let at_p = At-fresh h p (node v x (last x xs)) got in
      rw
        (
          ne→== p null got,
          ne→== x null old.ne_null,
          get-done old,
          get-done l0.0,
          set_next-done at p,
          set_prev-done l1.0 p,
        )
        (ends (
          refl,
          Ring-snoc _ x u xs p v r.distinct fresh l2 (
              At-assign (At-assign at_p (last x xs) _ (ne-last p x u xs fresh)) x _
                (ne-first p x u xs fresh)),
          Replaces-snoc h x u xs p v _ _ _,
        ))

  -- No memory: `Malloc` ends the program with status -1.
  pub append_to_list_with_id-exited :
      (xs : Cells)
      → b.addr ≡ null
      → append_to_list_with_id b (first xs null) id pid name h ≡ exited (negsuc 0)
  unfolding append_to_list_with_id checked_malloc
  append_to_list_with_id-exited xs none_left = rw none_left

-- With a fresh block from `malloc`, `append_to_list` ends with no bad access in the ring with the new
-- process (its id `nextID`, its name copied) behind the last; the head stays, or is the new node on
-- an empty list, `nextID` grows by one, and no cell outside the new ring is changed.
pub append_to_list-Ring :
    (h : Heap) (b : Block) (next_id pid : ℕ) (name : List ℕ) (xs : Cells)
    → Ring h xs
    → b.addr ≢ null
    → mem b.addr xs ≡ false
    → Ends
        (λ (p, n) g.
          Appended h xs (b.addr, new_proc b (pos next_id) pid name) p g × (n ≡ next_id + 1))
        (append_to_list b (first xs null) next_id pid name h)
unfolding append_to_list
append_to_list-Ring h b next_id pid name xs r got fresh =
    Ends-then (append_to_list_with_id-Ring h b (pos next_id) pid name xs r got fresh)
      λ p g d. ends (d, refl)
