-- ===== src/Exer4/Plist/Unlink.antt =====
-- Unlinking and freeing a node of a ring, as both deletions do.
use cslab_os.Base.{none, some, ◌∷◌, arith}
use cslab_os.Exer4.Plist.Memory.{
  Addr, Proc, node, Heap, assign, Ends, ends, ◌>>◌, At-assign, get-done, set_next-done,
  set_prev-done, free-done, free,
}
use cslab_os.Exer4.Plist.Ring.{
  Cells, first, last, Ring, Linked-assign, Linked-set_last, Linked-set_first, mem-last, Replaces,
}
use cslab_os.Exer4.Plist.Ops.{unlink}

-- The head of a ring of two nodes or more is taken out, and nothing but the ring is touched.
pub unlink-Ring :
    (h : Heap) (x p : Addr) (u v : Proc) (xs : Cells)
    → Ring h ((x, u) ∷ (p, v) ∷ xs)
    → Ends
        (λ _ g. Ring g ((p, v) ∷ xs) × Replaces ((x, u) ∷ (p, v) ∷ xs) ((p, v) ∷ xs) h g)
        ((unlink x >> free x) h)
unfolding unlink assign
unlink-Ring h x p u v xs r =
    let (n, at, l) = Linked-set_last h x p v xs x p r.linked.1 r.distinct.1 in
    let h1 = assign h (last p xs) (some (record n { next = p })) in
    let at1 =
      At-assign r.linked.0 (last p xs) (some (record n { next = p }))
        (ground (arith, mem-last p v xs)) in
    let l2 = Linked-set_first h1 x p v xs p (last p xs) l r.distinct.1.0 in
    let h2 = assign h1 p (some (node v (first xs p) (last p xs))) in
    let at2 = At-assign at1 p (some (node v (first xs p) (last p xs))) (ground arith) in
    rw
      (
        get-done r.linked.0,
        set_next-done at p,
        get-done at1,
        set_prev-done l.0 (last p xs),
        free-done at2,
      )
      (ends (
        record {
          distinct = r.distinct.1;
          linked = Linked-assign h2 (last p xs) ((p, v) ∷ xs) p x none l2 (ground arith);
        },
        ground (arith, mem-last p v xs),
      ))
