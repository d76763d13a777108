-- ===== src/Exer2/TreeFile/Defs.antt =====
-- exer2/ask2-expr/tree.c, by function. A file is the list of its characters, and a buffer that was read
-- is a C string. The loop over lines and the recursion on nodes run on fuel.
use cslab_os.Base.{
  ℕ, zero, suc, ◌+◌, ◌-◌, ◌^◌, ◌%◌, ◌==◌, ◌||◌, Bool, true, false, Option, none, some, List, [],
  ◌∷◌, ◌++◌, if◌then◌else◌, length, take,
}
use cslab_os.Base.Int.{ℤ, pos, negsuc}
use cslab_os.Text.{c_string, fgets, atoi}
use cslab_os.Text.Strtol.{clamp}
use cslab_os.Exer2.Tree.{Tree, node, Forest, nil, cons}

-- `failed` is `exit(1)`; a result stands with what is left of the file.
pub data Result (A : Type 0) : Type 0 where
  ok : A → List ℕ → Result A
  failed : Result A
  out_of_fuel : Result A

abbrev pub Parser : Type 0 → Type 0
Parser A = List ℕ → Result A

abbrev pub return : {A : Type 0} → A → Parser A
return a file = ok a file

abbrev pub fail : {A : Type 0} → Parser A
fail file = failed

module _ {A B : Type 0} where
  abbrev pub and_then : (A → Parser B) → Result A → Result B
  and_then k (ok a file) = k a file
  and_then k failed = failed
  and_then k out_of_fuel = out_of_fuel

  abbrev pub ◌>>=◌ : Parser A → (A → Parser B) → Parser B
  ◌>>=◌ p k file = and_then k (p file)

  abbrev pub ◌>>◌ : Parser A → Parser B → Parser B
  ◌>>◌ p k file = and_then (λ _. k) (p file)

  infixl 5 ◌>>=◌ ◌>>◌

abbrev pub buff_size : ℕ
buff_size = 1024

abbrev pub node_name_size : ℕ
node_name_size = 16

-- buff[ret_len - 1] = '\0'
unfoldable pub drop_last : List ℕ → List ℕ
drop_last [] = []
drop_last (c ∷ []) = []
drop_last (c ∷ d ∷ cs) = c ∷ drop_last (d ∷ cs)

-- `none` at the end of the file.
unfoldable pub read_line : Parser (Option (List ℕ))
read_line [] = ok none []
read_line (c ∷ file) =
    let r = fgets (buff_size - 1) (c ∷ file) in
    let ret = c_string r.0 in
    if length ret == buff_size - 1 then failed else ok (some (drop_last ret)) r.1

unfoldable pub read_empty_line : Parser (Option (List ℕ))
read_empty_line = do
  line ← read_line
  elim line [ none ↦ return none | some ret ↦ elim ret [ [] ↦ return (some []) | _ ∷ _ ↦ fail ] ]

unfoldable pub read_non_empty_line : Parser (List ℕ)
read_non_empty_line = do
  line ← read_line
  elim line [ none ↦ fail | some ret ↦ elim ret [ [] ↦ fail | c ∷ cs ↦ return (c ∷ cs) ] ]

-- The first line that is neither empty nor a comment, after '#'.
unfoldable pub find_block_start : ℕ → Parser (Option (List ℕ))
find_block_start zero = λ file. out_of_fuel
find_block_start (suc fuel) = do
  line ← read_line
  elim line [
    | none ↦ return none
    | some ret ↦ elim ret [
      | [] ↦ find_block_start fuel
      | c ∷ cs ↦ if c == 35 then find_block_start fuel else return (some (c ∷ cs))
    ]
  ]

-- strncmp(a, b, n) == 0
unfoldable pub strncmp_equal : ℕ → List ℕ → List ℕ → Bool
strncmp_equal zero a b = true
strncmp_equal (suc n) [] [] = true
strncmp_equal (suc n) [] (d ∷ b) = false
strncmp_equal (suc n) (c ∷ a) [] = false
strncmp_equal (suc n) (c ∷ a) (d ∷ b) = if c == d then strncmp_equal n a b else false

-- `snprintf(name, NODE_NAME_SIZE, "%s", line)` keeps room for the NUL.
abbrev pub stored_name : List ℕ → List ℕ
stored_name line = take (node_name_size - 1) line

-- The name of a block, for a node that is given or is allocated. `alloc` tells whether there is memory
-- for so many nodes.
unfoldable pub check_name : (ℕ → Bool) → Option (List ℕ) → List ℕ → Parser (List ℕ)
check_name alloc none name = if alloc 1 then return (stored_name name) else fail
check_name alloc (some given) name =
    if strncmp_equal node_name_size given name then return given else fail

-- A `long` as an `unsigned` of 32 bits.
unfoldable pub to_unsigned : ℤ → ℕ
to_unsigned (pos n) = n % 2 ^ 32
to_unsigned (negsuc n) = 2 ^ 32 - 1 - n % 2 ^ 32

-- The source's counter is an `int`, so that this is its loop up to 2 ^ 31 - 1 names; a file needs more than
-- 2 ^ 31 bytes to have more of them.
unfoldable pub read_names : ℕ → Parser (List (List ℕ))
read_names zero = return []
read_names (suc nr) = do
  name ← read_non_empty_line
  names ← read_names nr
  return (stored_name name ∷ names)

abbrev pub add_child : Option Tree → Forest → Forest
add_child none forest = forest
add_child (some t) forest = cons t forest

-- The recursive calls of `parse_node`, by `p`, for the names in order.
unfoldable pub parse_children : (List ℕ → Parser (Option Tree)) → List (List ℕ) → Parser Forest
parse_children p [] = return nil
parse_children p (name ∷ names) = do
  child ← p name
  forest ← parse_children p names
  return (add_child child forest)

-- `malloc` of the children, where there are any.
unfoldable pub alloc_children : (ℕ → Bool) → ℕ → Bool
alloc_children alloc nr = (nr == 0) || alloc nr

-- The number of children and their names. `atol` gives the nearest `long` of 64 bits, of
-- which `nr_children` keeps 32.
unfoldable pub read_children : (ℕ → Bool) → Parser (List (List ℕ))
read_children alloc = do
  num_str ← read_non_empty_line
  if alloc_children alloc (to_unsigned (clamp (atoi num_str)))
      then read_names (to_unsigned (clamp (atoi num_str)))
      else fail

-- No block where one may start: an empty file, or an error when a node is expected.
abbrev pub at_end : Option (List ℕ) → Parser (Option Tree)
at_end none = return none
at_end (some given) = fail

-- The result is `none` for NULL, at the end of the file with no node given.
unfoldable pub parse_node : (ℕ → Bool) → ℕ → Option (List ℕ) → Parser (Option Tree)
parse_node alloc zero given = λ file. out_of_fuel
parse_node alloc (suc fuel) given = do
  start ← find_block_start (suc fuel)
  elim start [
    | none ↦ at_end given
    | some line ↦ (do
      name ← check_name alloc given line
      names ← read_children alloc
      read_empty_line
      children ← parse_children (λ child. parse_node alloc fuel (some child)) names
      return (some (node name children)))
  ]

-- `get_tree_from_file`, on the file's contents.
unfoldable pub get_tree_from_file : (ℕ → Bool) → List ℕ → Result (Option Tree)
get_tree_from_file alloc file = parse_node alloc (length file + 1) none file

-- `__print_tree`: the lines, each as its number of tabs and its name.
unfoldable mutual
  pub print_tree : Tree → ℕ → List (ℕ × List ℕ)
  print_tree (node name children) level = (level, name) ∷ print_children children (level + 1)

  pub print_children : Forest → ℕ → List (ℕ × List ℕ)
  print_children nil level = []
  print_children (cons t ts) level = print_tree t level ++ print_children ts level
