-- ===== src/Exer4/Plist/Delete.antt =====
-- `delete_from_list` and `delete_from_list_with_id` take the first match out of the ring and free it.
use cslab_os.Base.{
  ℕ, zero, suc, ◌<◌, ◌≡◌, refl, sym, subst, inl, inr, Bool, false, [], ◌∷◌, ◌++◌, arith,
  append_assoc, Bool-cases, length, length-append, any, any-append, erase_first, erase_first-append,
  erase_first-none, ne→==, eq→==, ◌≤◌,
}
use cslab_os.Base.Int.{ℤ}
use cslab_os.Exer4.Plist.Memory.{
  Addr, null, Proc, Heap, assign, Ends, ends, Ends-mono, Ends-assoc, Ends-then, ◌>>◌, get-done,
  free-done, free,
}
use cslab_os.Exer4.Plist.Ring.{
  Cells, mem-append, first, first-front, Ring, Ring-nil, Ring-swap, Linked-At, Distinct-first,
  Replaces,
}
use cslab_os.Exer4.Plist.Ops.{
  unlink, delete_loop, delete_where, delete_from_list, delete_from_list_with_id, has_pid, has_id,
}
use cslab_os.Exer4.Plist.Unlink.{unlink-Ring}

-- A test of processes on the cells of a ring.
abbrev pub on_proc : (Proc → Bool) → Addr × Proc → Bool
on_proc t (_, v) = t v

abbrev pub Deleted : (Proc → Bool) → Heap → Cells → Addr → Heap → Type 0
Deleted t h xs p g =
    (p ≡ first (erase_first (on_proc t) xs) null)
    × Ring g (erase_first (on_proc t) xs)
    × Replaces xs (erase_first (on_proc t) xs) h g

unlink-tail :
    (h : Heap) (x : Addr) (u : Proc) (zs : Cells)
    → 0 < length zs
    → Ring h ((x, u) ∷ zs)
    → Ends (λ _ g. Ring g zs × Replaces ((x, u) ∷ zs) zs h g) ((unlink x >> free x) h)
unlink-tail h x u [] some_left r = absurd (omega arith)
unlink-tail h x u ((p, v) ∷ zs) some_left r = unlink-Ring h x p u v zs r

Deleted-of :
    (t : Proc → Bool) (h : Heap) (xs zs : Cells) (p : Addr) (g : Heap)
    → erase_first (on_proc t) xs ≡ zs
    → p ≡ first zs null
    → Ring g zs
    → Replaces xs zs h g
    → Deleted t h xs p g
Deleted-of t h xs zs p g e at_head ring rest =
    subst (λ l. (p ≡ first l null) × Ring g l × Replaces xs l h g) (sym e) (at_head, ring, rest)

-- Any node of a ring but the head: `xs` and `(p, v)` stand before it, `ys` behind.
unlink-middle :
    (h : Heap) (xs : Cells) (p : Addr) (v : Proc) (x : Addr) (u : Proc) (ys : Cells)
    → Ring h ((xs ++ (p, v) ∷ []) ++ (x, u) ∷ ys)
    → Ends
        (λ _ g.
          Ring g ((xs ++ (p, v) ∷ []) ++ ys)
          × Replaces ((xs ++ (p, v) ∷ []) ++ (x, u) ∷ ys) ((xs ++ (p, v) ∷ []) ++ ys) h g)
        ((unlink x >> free x) h)
unlink-middle h xs p v x u ys r =
    let front : Cells = xs ++ (p, v) ∷ [] in
    let room : 0 < length (ys ++ front) =
      omega (arith, length-append ys front, length-append xs ((p, v) ∷ [])) in
    Ends-mono (unlink-tail h x u (ys ++ front) room (Ring-swap h front ((x, u) ∷ ys) r))
      λ _ g (ring, rest). (
        Ring-swap g ys front ring,
        λ a out. ground (
          arith,
          rest a,
          mem-append a front ys,
          mem-append a ys front,
          mem-append a front ((x, u) ∷ ys),
        ),
      )

module _ (t : Proc → Bool) (h : Heap) where
  delete_loop-Ring :
      (k : ℕ) (xs : Cells) (p : Addr) (v : Proc) (ys : Cells)
      → Ring h (xs ++ (p, v) ∷ ys)
      → any (on_proc t) (xs ++ (p, v) ∷ []) ≡ false
      → length ys < k
      → Ends
          (Deleted t h (xs ++ (p, v) ∷ ys))
          (delete_loop t k (first (xs ++ (p, v) ∷ ys) null) p h)
  unfolding delete_loop
  delete_loop-Ring zero xs p v ys r miss fuel = absurd (omega arith)
  delete_loop-Ring (suc k) xs p v [] r miss fuel =
      let at = Linked-At h _ xs p v [] _ r.linked in
      rw (get-done at, eq→== _ _ refl)
        (ends (Deleted-of t h _ _ _ h (erase_first-none _ _ miss) refl r (λ a out. ground arith)))
  delete_loop-Ring (suc k) xs p v ((x, u) ∷ ys) r miss fuel =
      let front : Cells = xs ++ (p, v) ∷ [] in
      let at = Linked-At h _ xs p v ((x, u) ∷ ys) _ r.linked in
      let r' = subst (Ring h) (sym (append_assoc xs ((p, v) ∷ []) ((x, u) ∷ ys))) r in
      let at' = Linked-At h _ front x u ys _ r'.linked in
      rw (get-done at, ne→== _ _ (Distinct-first xs p v x u ys r.distinct), get-done at')
        (elim (Bool-cases (t u)) [
          | inl hit ↦ rw hit (
              Ends-assoc (unlink x h) (λ _. free x) _
                (Ends-then (unlink-middle h xs p v x u ys r') λ _ g (ring, rest). ends (
                  subst (λ l. Deleted t h l (first l null) g)
                    (append_assoc xs ((p, v) ∷ []) ((x, u) ∷ ys))
                    (Deleted-of t h _ _ _ g
                      (erase_first-append (on_proc t) front (x, u) ys miss hit)
                      (first-front xs p v ((x, u) ∷ ys) ys null) ring rest))))
          | inr other ↦ rw other (
              subst (λ l. Ends (Deleted t h l) (delete_loop t k (first l null) x h))
                (append_assoc xs ((p, v) ∷ []) ((x, u) ∷ ys))
                (delete_loop-Ring k front x u ys r'
                  (ground (arith, any-append (on_proc t) front ((x, u) ∷ []))) (omega arith)))
        ])

  -- The first match is unlinked and freed, the head moves on if it was the match, and nothing else
  -- changes; with no match nothing changes at all.
  pub delete_where-Ring :
      (fuel : ℕ) (xs : Cells)
      → Ring h xs
      → length xs ≤ fuel
      → Ends (Deleted t h xs) (delete_where t fuel (first xs null) h)
  unfolding delete_where assign
  delete_where-Ring fuel [] r enough = ends (refl, Ring-nil h, λ a out. refl)
  delete_where-Ring fuel ((p, v) ∷ []) r enough =
      let at = r.linked.0 in
      rw (ne→== p null at.ne_null, get-done at)
        (elim (Bool-cases (t v)) [
          | inl hit ↦
              rw (hit, eq→== p p refl, free-done at)
                (ends (
                  Deleted-of t h ((p, v) ∷ []) [] null _
                    (erase_first-append (on_proc t) [] (p, v) [] refl hit) refl (Ring-nil _)
                    (ground arith)))
          | inr other ↦ rw other (delete_loop-Ring fuel [] p v [] r (ground arith) (omega arith))
        ])
  delete_where-Ring fuel ((p, v) ∷ (x, u) ∷ ys) r enough =
      let at = r.linked.0 in
      rw (ne→== p null at.ne_null, get-done at)
        (elim (Bool-cases (t v)) [
          | inl hit ↦
              rw (hit, ne→== x p (ground arith))
                (Ends-assoc (unlink p h) (λ _. free p) _
                  (Ends-then (unlink-Ring h p x v u ys r) λ _ g (ring, rest). ends (
                    Deleted-of t h ((p, v) ∷ (x, u) ∷ ys) ((x, u) ∷ ys) x g
                      (erase_first-append (on_proc t) [] (p, v) ((x, u) ∷ ys) refl hit) refl ring
                      rest)))
          | inr other ↦
              rw other (delete_loop-Ring fuel [] p v ((x, u) ∷ ys) r (ground arith) (omega arith))
        ])

-- On a ring, with fuel for its nodes, `delete_from_list` ends with no bad access in the ring without
-- the first process of that pid. The new head is that ring's first node (NULL if none is left), the
-- removed node is free, and no cell outside the ring is changed.
pub delete_from_list-Ring :
    (pid : ℕ) (h : Heap) (fuel : ℕ) (xs : Cells)
    → Ring h xs
    → length xs ≤ fuel
    → Ends (Deleted (has_pid pid) h xs) (delete_from_list fuel (first xs null) pid h)
unfolding delete_from_list
delete_from_list-Ring pid h fuel xs r enough = delete_where-Ring (has_pid pid) h fuel xs r enough

-- On a ring, with fuel for its nodes, `delete_from_list_with_id` ends with no bad access in the ring
-- without the first process of that id; the new head is its first node or NULL, the removed node is
-- free, and no cell outside the ring is changed.
pub delete_from_list_with_id-Ring :
    (id : ℤ) (h : Heap) (fuel : ℕ) (xs : Cells)
    → Ring h xs
    → length xs ≤ fuel
    → Ends (Deleted (has_id id) h xs) (delete_from_list_with_id fuel (first xs null) id h)
unfolding delete_from_list_with_id
delete_from_list_with_id-Ring id h fuel xs r enough =
    delete_where-Ring (has_id id) h fuel xs r enough
