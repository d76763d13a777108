-- ===== src/Exer4/Plist/Ring.antt =====
-- The shape of plist.c's list: a circular, doubly linked ring of distinct nodes.
use cslab_os.Base.{
  ◌≡◌, ◌≢◌, refl, Bool, true, false, ◌||◌, Option, none, some, List, [], ◌∷◌, ◌++◌, arith, ◌==◌,
  if◌then◌else◌, append-nil, append_assoc, sym, subst,
}
use cslab_os.Exer4.Plist.Memory.{
  Addr, null, Proc, node, Node, Heap, assign, At, At-assign, At-assign_self,
}

-- What a ring stands for: the address and the process of each node, from the head on.
abbrev pub Cells : Type 0
Cells = List (Addr × Proc)

abbrev pub mem : Addr → Cells → Bool
mem a [] = false
mem a ((p, _) ∷ xs) = (a == p) || mem a xs

abbrev pub first : Cells → Addr → Addr
first [] stop = stop
first ((p, _) ∷ xs) stop = p

abbrev pub last : Addr → Cells → Addr
last before [] = before
last before ((p, _) ∷ xs) = last p xs

abbrev pub Distinct : Cells → Type 0
Distinct [] = Unit
Distinct ((p, _) ∷ xs) = (mem p xs ≡ false) × Distinct xs

-- The nodes of `xs` in a row: `before` is the predecessor of the first, `stop` the successor of the
-- last.
abbrev pub Linked : Heap → Addr → Cells → Addr → Type 0
Linked h before [] stop = Unit
Linked h before ((p, v) ∷ xs) stop = At h p (node v (first xs stop) before) × Linked h p xs stop

-- The row closed to a ring.
pub record Ring (h : Heap) (xs : Cells) : Type 0 where
  pub distinct : Distinct xs
  pub linked : Linked h (last null xs) xs (first xs null)

-- `g` holds the nodes of `ys` where `h` held those of `xs`: all else is as it was, and the nodes
-- that are gone are free.
abbrev pub Replaces : Cells → Cells → Heap → Heap → Type 0
Replaces xs ys h g = (a : Addr) → mem a ys ≡ false → g a ≡ (if mem a xs then none else h a)

pub mem-append : (a : Addr) (xs ys : Cells) → mem a (xs ++ ys) ≡ (mem a xs || mem a ys)
mem-append a [] ys = refl
mem-append a (x ∷ xs) ys = ground (arith, mem-append a xs ys)

pub mem-swap : (a : Addr) (xs ys : Cells) → mem a (xs ++ ys) ≡ mem a (ys ++ xs)
mem-swap a xs ys = ground (arith, mem-append a xs ys, mem-append a ys xs)

pub last-snoc : (b : Addr) (xs : Cells) (p : Addr) (v : Proc) → last b (xs ++ (p, v) ∷ []) ≡ p
last-snoc b [] p v = refl
last-snoc b (x ∷ xs) p v = last-snoc x.0 xs p v

pub first-snoc :
    (xs : Cells) (p : Addr) (v : Proc) (stop : Addr) → first (xs ++ (p, v) ∷ []) stop ≡ first xs p
first-snoc [] p v stop = refl
first-snoc (x ∷ xs) p v stop = refl

Distinct-snoc :
    (xs : Cells) (p : Addr) (v : Proc)
    → Distinct xs
    → mem p xs ≡ false
    → Distinct (xs ++ (p, v) ∷ [])
Distinct-snoc [] p v d out = (refl, tt)
Distinct-snoc ((q, w) ∷ xs) p v d out =
    (ground (arith, mem-append q xs ((p, v) ∷ [])), Distinct-snoc xs p v d.1 (ground arith))

pub Linked-snoc :
    (h : Heap) (b : Addr) (xs : Cells) (p : Addr) (v : Proc) (stop : Addr)
    → Linked h b xs p
    → At h p (node v stop (last b xs))
    → Linked h b (xs ++ (p, v) ∷ []) stop
Linked-snoc h b [] p v stop l at = (at, tt)
Linked-snoc h b ((q, w) ∷ xs) p v stop (at_q, l) at = (
  subst (λ s. At h q (node w s b)) (sym (first-snoc xs p v stop)) at_q,
  Linked-snoc h q xs p v stop l at,
)

-- The assign leaves a row alone that does not have the address.
pub Linked-assign :
    (h : Heap) (b : Addr) (xs : Cells) (stop : Addr) (a : Addr) (c : Option Node)
    → Linked h b xs stop
    → mem a xs ≡ false
    → Linked (assign h a c) b xs stop
Linked-assign h b [] stop a c l out = tt
Linked-assign h b ((p, v) ∷ xs) stop a c (at, l) out =
    (At-assign at _ c (ground arith), Linked-assign h p xs stop a c l (ground arith))

-- `procs = procs->next`: the ring is as good from its second node on.
pub Ring-rotate :
    (h : Heap) (p : Addr) (v : Proc) (xs : Cells)
    → Ring h ((p, v) ∷ xs)
    → Ring h (xs ++ (p, v) ∷ [])
Ring-rotate h p v xs r = record {
  distinct = Distinct-snoc xs p v r.distinct.1 r.distinct.0;
  linked =
      subst (λ b. Linked h b (xs ++ (p, v) ∷ []) (first (xs ++ (p, v) ∷ []) null))
        (sym (last-snoc null xs p v))
        (Linked-snoc h p xs p v _ r.linked.1
          (subst (λ s. At h p (node v s (last p xs))) (sym (first-snoc xs p v null)) r.linked.0));
}

pub Ring-swap : (h : Heap) (xs ys : Cells) → Ring h (xs ++ ys) → Ring h (ys ++ xs)
Ring-swap h [] ys r = subst (Ring h) (sym (append-nil ys)) r
Ring-swap h ((p, v) ∷ xs) ys r = subst (Ring h) (append_assoc ys ((p, v) ∷ []) xs) (
    Ring-swap h xs (ys ++ (p, v) ∷ [])
      (subst (Ring h) (append_assoc xs ys ((p, v) ∷ [])) (Ring-rotate h p v (xs ++ ys) r)))

-- The node in the middle of a row.
pub Linked-At :
    (h : Heap) (b : Addr) (xs : Cells) (p : Addr) (v : Proc) (ys : Cells) (stop : Addr)
    → Linked h b (xs ++ (p, v) ∷ ys) stop
    → At h p (node v (first ys stop) (last b xs))
Linked-At h b [] p v ys stop l = l.0
Linked-At h b ((q, w) ∷ xs) p v ys stop l = Linked-At h q xs p v ys stop l.1

pub Distinct-first :
    (xs : Cells) (p : Addr) (v : Proc) (q : Addr) (w : Proc) (ys : Cells)
    → Distinct (xs ++ (p, v) ∷ (q, w) ∷ ys)
    → q ≢ first (xs ++ (p, v) ∷ (q, w) ∷ ys) null
Distinct-first [] p v q w ys d = ground arith
Distinct-first ((o, u) ∷ xs) p v q w ys d = ground (arith, mem-append o xs ((p, v) ∷ (q, w) ∷ ys))

pub mem-last : (p : Addr) (v : Proc) (xs : Cells) → mem (last p xs) ((p, v) ∷ xs) ≡ true
mem-last p v [] = ground arith
mem-last p v ((o, u) ∷ xs) = ground (arith, mem-last o u xs)

pub ne-first : (a p : Addr) (v : Proc) (xs : Cells) → mem a ((p, v) ∷ xs) ≡ false → a ≢ p
ne-first a p v xs out = ground arith

pub ne-last : (a p : Addr) (v : Proc) (xs : Cells) → mem a ((p, v) ∷ xs) ≡ false → a ≢ last p xs
ne-last a p v xs out = ground (arith, mem-last p v xs)

-- `last->next = q` on a row that is not empty.
pub Linked-set_last :
    (h : Heap) (b p : Addr) (v : Proc) (xs : Cells) (stop q : Addr)
    → Linked h b ((p, v) ∷ xs) stop
    → Distinct ((p, v) ∷ xs)
    → (n : Node) × At h (last p xs) n
      × Linked (assign h (last p xs) (some (record n { next = q }))) b ((p, v) ∷ xs) q
Linked-set_last h b p v [] stop q l d = (_, l.0, (At-assign_self l.0 _, tt))
Linked-set_last h b p v ((o, u) ∷ xs) stop q l d =
    let (n, at, l') = Linked-set_last h p o u xs stop q l.1 d.1 in
    (n, at, (At-assign l.0 _ _ (ground (arith, mem-last o u xs)), l'))

-- `first->prev = q` on a row that is not empty.
pub Linked-set_first :
    (h : Heap) (b p : Addr) (v : Proc) (xs : Cells) (stop q : Addr)
    → Linked h b ((p, v) ∷ xs) stop
    → mem p xs ≡ false
    → Linked (assign h p (some (node v (first xs stop) q))) q ((p, v) ∷ xs) stop
Linked-set_first h b p v xs stop q l out =
    (At-assign_self l.0 _, Linked-assign h p xs stop p _ l.1 out)

pub first-front :
    (xs : Cells) (p : Addr) (v : Proc) (ys zs : Cells) (stop : Addr)
    → first ((xs ++ (p, v) ∷ []) ++ ys) stop ≡ first ((xs ++ (p, v) ∷ []) ++ zs) stop
first-front [] p v ys zs stop = refl
first-front (x ∷ xs) p v ys zs stop = refl

-- A node that points back at both ends closes a row to a larger ring.
pub Ring-snoc :
    (h : Heap) (x : Addr) (u : Proc) (xs : Cells) (p : Addr) (v : Proc)
    → Distinct ((x, u) ∷ xs)
    → mem p ((x, u) ∷ xs) ≡ false
    → Linked h p ((x, u) ∷ xs) p
    → At h p (node v x (last x xs))
    → Ring h ((x, u) ∷ xs ++ (p, v) ∷ [])
Ring-snoc h x u xs p v d out l at = record {
  distinct = Distinct-snoc ((x, u) ∷ xs) p v d out;
  linked =
      subst (λ b. Linked h b ((x, u) ∷ xs ++ (p, v) ∷ []) x) (sym (last-snoc x xs p v))
        (Linked-snoc h p ((x, u) ∷ xs) p v x l at);
}

-- Writes at a new node, at the last and at the first, are all within the longer ring.
pub Replaces-snoc :
    (h : Heap) (x : Addr) (u : Proc) (xs : Cells) (p : Addr) (v : Proc) (c d e : Option Node)
    → Replaces
        ((x, u) ∷ xs)
        ((x, u) ∷ xs ++ (p, v) ∷ [])
        h
        (assign (assign (assign h p c) (last x xs) d) x e)
unfolding assign
Replaces-snoc h x u xs p v c d e a out =
    ground (arith, mem-last x u xs, mem-append a xs ((p, v) ∷ []))

pub Ring-nil : (h : Heap) → Ring h []
Ring-nil h = record { distinct = tt; linked = tt }
