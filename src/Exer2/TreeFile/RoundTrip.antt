-- ===== src/Exer2/TreeFile/RoundTrip.antt =====
-- A tree that is written as a tree file is read back.
use cslab_os.Base.{
  List-cases, inl, inr, ◌∙◌, ne→==, eq→==, ap, length-append, ℕ, zero, suc, ◌+◌, ◌^◌, ◌≤◌, ◌<◌, ◌≡◌,
  refl, ◌==◌, ◌||◌, Bool, true, false, Option, none, some, List, [], ◌∷◌, ◌++◌, arith, length, any,
  take, if◌then◌else◌, ◌%◌,
}
use cslab_os.Text.{c_string, fgets}
use cslab_os.Text.Lines.{is_end, fgets-line, c_string-line}
use cslab_os.Text.Strtol.{clamp_small}
use cslab_os.Text.Decimal.{decimal, atoi-decimal, decimal-line}
use cslab_os.Exer2.Tree.{Tree, node, Forest, nil, cons}
use cslab_os.Exer2.TreeFile.Defs.{
  Result, ok, failed, drop_last, read_line, read_empty_line, read_non_empty_line, find_block_start,
  strncmp_equal, check_name, to_unsigned, read_names, alloc_children, read_children, parse_children,
  parse_node, get_tree_from_file,
}
use cslab_os.Exer2.TreeFile.Writer.{
  count_children, name_of, names_of, write_names, write_tree, write_forest, IsName, Writable,
  WritableAll, size, size_all,
}

take-short : (n : ℕ) (xs : List ℕ) → length xs ≤ n → take n xs ≡ xs
take-short zero [] le = refl
take-short zero (x ∷ xs) le = absurd (omega arith)
take-short (suc n) [] le = refl
take-short (suc n) (x ∷ xs) le = ap (λ ys. x ∷ ys) (take-short n xs (omega arith))

drop_last-newline : (line : List ℕ) → drop_last (line ++ 10 ∷ []) ≡ line
unfolding drop_last
drop_last-newline [] = refl
drop_last-newline (c ∷ []) = refl
drop_last-newline (c ∷ d ∷ line) = rw (drop_last-newline (d ∷ line)) refl

-- The branch of `read_line` on a file that is not at its end.
abbrev read_some : List ℕ × List ℕ → Result (Option (List ℕ))
read_some r =
    if length (c_string r.0) == 1023 then failed else ok (some (drop_last (c_string r.0))) r.1

read_line-fgets :
    (line rest : List ℕ)
    → read_line (line ++ 10 ∷ rest) ≡ read_some (fgets 1023 (line ++ 10 ∷ rest))
unfolding read_line
read_line-fgets [] rest = refl
read_line-fgets (c ∷ line) rest = refl

read_line-line :
    (line rest : List ℕ)
    → any is_end line ≡ false
    → length line < 1022
    → read_line (line ++ 10 ∷ rest) ≡ ok (some line) rest
read_line-line line rest text short =
    let fits : (length (line ++ 10 ∷ []) == 1023) ≡ false =
      ne→== _ _ (λ e. omega (arith, e, length-append line (10 ∷ []))) in
    read_line-fgets line rest
    ∙ rw
        (
          fgets-line 1023 line rest text (omega arith),
          c_string-line line text,
          fits,
          drop_last-newline line,
        )
        refl

-- A name is read where a line that is not empty is wanted, and where a block may start.
module _ (name rest : List ℕ) (is_name : IsName name) where
  read_name : read_line (name ++ 10 ∷ rest) ≡ ok (some name) rest
  read_name = read_line-line name rest is_name.text (omega (arith, is_name.short))

  read_non_empty_line-name : read_non_empty_line (name ++ 10 ∷ rest) ≡ ok name rest
  unfolding read_non_empty_line
  read_non_empty_line-name = let (c, cs, e, other) = is_name.first in rw (read_name, e) refl

  find_block_start-name :
      (fuel : ℕ) → find_block_start (suc fuel) (name ++ 10 ∷ rest) ≡ ok (some name) rest
  unfolding find_block_start
  find_block_start-name fuel =
      let (c, cs, e, other) = is_name.first in rw (read_name, e, other) refl

read_non_empty_line-decimal :
    (n : ℕ) (rest : List ℕ) → read_non_empty_line (decimal n ++ 10 ∷ rest) ≡ ok (decimal n) rest
unfolding read_non_empty_line
read_non_empty_line-decimal n rest =
    let (text, short, some_digit) = decimal-line n in
    elim (List-cases (decimal n)) [
      | inl e ↦ absurd (omega (arith, some_digit, ap length e))
      | inr (d, ds, e) ↦ rw (read_line-line (decimal n) rest text (omega (arith, short)), e) refl
    ]

read_names-write_names :
    (ts : Forest) (rest : List ℕ)
    → WritableAll ts
    → read_names (count_children ts) (write_names (names_of ts) rest) ≡ ok (names_of ts) rest
unfolding read_names WritableAll Writable
read_names-write_names nil rest w = refl
read_names-write_names (cons (node name cs) ts) rest ((is_name, small, below), others) =
    rw
      (
        read_non_empty_line-name name (write_names (names_of ts) rest) is_name,
        read_names-write_names ts rest others,
        take-short 15 name is_name.short,
      )
      refl

strncmp_equal_self : (n : ℕ) (name : List ℕ) → strncmp_equal n name name ≡ true
unfolding strncmp_equal
strncmp_equal_self zero name = refl
strncmp_equal_self (suc n) [] = refl
strncmp_equal_self (suc n) (c ∷ name) = rw (eq→== c c refl) (strncmp_equal_self n name)

-- The given name of a node, or none for the root.
abbrev Expects : Option (List ℕ) → List ℕ → Type 0
Expects none name = Unit
Expects (some given) name = given ≡ name

module _ (alloc : ℕ → Bool) (memory : (n : ℕ) → alloc n ≡ true) where
  check_name-name :
      (given : Option (List ℕ)) (name rest : List ℕ)
      → IsName name
      → Expects given name
      → check_name alloc given name rest ≡ ok name rest
  unfolding check_name
  check_name-name none name rest is_name e = rw (memory 1, take-short 15 name is_name.short) refl
  check_name-name (some given) name rest is_name e = rw (e, strncmp_equal_self 16 name) refl

  read_children-forest :
      (ts : Forest) (rest : List ℕ)
      → WritableAll ts
      → count_children ts < 2 ^ 31
      → read_children alloc (decimal (count_children ts) ++ 10 ∷ write_names (names_of ts) rest)
        ≡ ok (names_of ts) rest
  unfolding read_children alloc_children to_unsigned
  read_children-forest ts rest w small =
      let n = count_children ts in
      let same : n % 2 ^ 32 ≡ n = omega (arith, small) in
      let room : ((n == 0) || alloc n) ≡ true = ground (arith, memory n) in
      rw
        (
          read_non_empty_line-decimal n (write_names (names_of ts) rest),
          atoi-decimal n (omega (arith, small)),
          clamp_small n (omega (arith, small)),
          same,
          room,
        )
        (read_names-write_names ts rest w)

  mutual
    unfolding parse_node parse_children write_tree Writable size read_empty_line

    parse_node-write :
        (t : Tree) (fuel : ℕ) (given : Option (List ℕ)) (rest : List ℕ)
        → Writable t
        → Expects given (name_of t)
        → size t ≤ fuel
        → parse_node alloc fuel given (write_tree t rest) ≡ ok (some t) rest
    parse_node-write (node name ts) zero given rest w e enough = absurd (omega arith)
    parse_node-write (node name ts) (suc fuel) given rest (is_name, small, below) e enough =
        rw
          (
            find_block_start-name name _ is_name fuel,
            check_name-name given name _ is_name e,
            read_children-forest ts (10 ∷ write_forest ts rest) below small,
            read_line-line [] (write_forest ts rest) refl (omega arith),
            parse_children-write ts fuel rest below (omega arith),
          )
          refl

    parse_children-write :
        (ts : Forest) (fuel : ℕ) (rest : List ℕ)
        → WritableAll ts
        → size_all ts ≤ fuel
        → parse_children
            (λ child. parse_node alloc fuel (some child))
            (names_of ts)
            (write_forest ts rest)
          ≡ ok ts rest
    parse_children-write nil fuel rest w enough = refl
    parse_children-write (cons t ts) fuel rest (here, others) enough =
        rw
          (
            parse_node-write t fuel (some (name_of t)) (write_forest ts rest) here refl
                (omega arith),
            parse_children-write ts fuel rest others (omega arith),
          )
          refl

write_names-length :
    (names : List (List ℕ)) (rest : List ℕ) → length rest ≤ length (write_names names rest)
write_names-length [] rest = omega arith
write_names-length (name ∷ names) rest =
    omega (arith, write_names-length names rest, length-append name (10 ∷ write_names names rest))

mutual
  unfolding size write_tree

  size-length : (t : Tree) (rest : List ℕ) → size t + length rest ≤ length (write_tree t rest)
  size-length (node name ts) rest =
      let numeral = decimal (count_children ts) in
      let names = write_names (names_of ts) (10 ∷ write_forest ts rest) in
      omega (
        arith,
        size_all-length ts rest,
        write_names-length (names_of ts) (10 ∷ write_forest ts rest),
        length-append name (10 ∷ (numeral ++ 10 ∷ names)),
        length-append numeral (10 ∷ names),
      )

  size_all-length :
      (ts : Forest) (rest : List ℕ) → size_all ts + length rest ≤ length (write_forest ts rest)
  size_all-length nil rest = omega arith
  size_all-length (cons t ts) rest =
      omega (arith, size-length t (write_forest ts rest), size_all-length ts rest)

-- With memory for the nodes: the tree file of a tree is read back as that tree, to its end, when each
-- name is a text of one to 15 characters in a line that does not start with '#', and each node has
-- fewer than 2 ^ 31 children.
pub get_tree_from_file-write_tree :
    (alloc : ℕ → Bool) (t : Tree)
    → ((n : ℕ) → alloc n ≡ true)
    → Writable t
    → get_tree_from_file alloc (write_tree t []) ≡ ok (some t) []
unfolding get_tree_from_file
get_tree_from_file-write_tree alloc t memory w =
    parse_node-write alloc memory t (length (write_tree t []) + 1) none [] w tt
      (omega (arith, size-length t []))
