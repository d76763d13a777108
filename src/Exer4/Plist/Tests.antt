-- ===== src/Exer4/Plist/Tests.antt =====
-- The list operations on a ring of three processes, at addresses 10, 20 and 30.
use cslab_os.Base.{ℕ, ◌≡◌, ◌≢◌, refl, none, some, [], ◌∷◌, arith, replicate, ◌+◌}
use cslab_os.Base.Int.{pos}
use cslab_os.Exer4.Plist.Memory.{Addr, null, Node, Proc, Heap, node, assign, Ends, At}
use cslab_os.Exer4.Plist.Ring.{Cells, Ring}
use cslab_os.Exer4.Plist.Ops.{Block, new_proc, has_pid, delete_from_list, append_to_list}
use cslab_os.Exer4.Plist.Earlier
use cslab_os.Exer4.Plist.Earlier.{append_to_list-append_to_list}
use cslab_os.Exer4.Plist.Delete.{Deleted, delete_from_list-Ring}
use cslab_os.Exer4.Plist.Append.{Appended, append_to_list-Ring}

abbrev proc : ℕ → Proc
proc n = record { id = pos n; pid = 100 + n; name = replicate 60 0 }

abbrev cells : Cells
cells = (10, proc 0) ∷ (20, proc 1) ∷ (30, proc 2) ∷ []

abbrev heap : Heap
heap =
    assign
      (assign (assign (λ _. none) 10 (some (node (proc 0) 20 30))) 20 (some (node (proc 1) 30 10)))
      30 (some (node (proc 2) 10 20))

at : {p : Addr} {n : Node} → p ≢ null → heap p ≡ some n → At heap p n
at ne e = record { ne_null = ne; holds = e }

cells-Ring : Ring heap cells
unfolding assign
cells-Ring = record {
  distinct = (refl, (refl, (refl, tt)));
  linked = (at (omega arith) refl, (at (omega arith) refl, (at (omega arith) refl, tt)));
}

delete_from_list-Ring_example :
    Ends (Deleted (has_pid 101) heap cells) (delete_from_list 3 10 101 heap)
delete_from_list-Ring_example = delete_from_list-Ring 101 heap 3 cells cells-Ring (omega arith)

abbrev block : Block
block = record { addr = 40; bytes = replicate 60 7 }

append_to_list-Ring_example :
    Ends
      (λ (p, n) g. Appended heap cells (40, new_proc block (pos 3) 103 (97 ∷ [])) p g × (n ≡ 4))
      (append_to_list block 10 3 103 (97 ∷ []) heap)
append_to_list-Ring_example =
    append_to_list-Ring heap block 3 103 (97 ∷ []) cells cells-Ring (omega arith) refl

append_to_list-append_to_list_example :
    Earlier.append_to_list block 10 3 103 (97 ∷ []) heap
    ≡ append_to_list block 10 3 103 (97 ∷ []) heap
append_to_list-append_to_list_example = append_to_list-append_to_list block 10 3 103 (97 ∷ []) heap
