-- ===== src/Exer2/TreeFile/Terminates.antt =====
-- The parser comes to an end on every file.
use cslab_os.Base.{
  ℕ, zero, suc, ◌+◌, ◌-◌, ◌≤◌, ◌<◌, ◌≢◌, ◌==◌, Bool, true, false, Option, none, some, List, [], ◌∷◌,
  arith, length, if◌then◌else◌,
}
use cslab_os.Text.{c_string, fgets, atoi}
use cslab_os.Text.Strtol.{clamp}
use cslab_os.Exer2.Tree.{Tree}
use cslab_os.Exer2.TreeFile.Defs.{
  strncmp_equal, to_unsigned, alloc_children, Result, ok, failed, out_of_fuel, Parser, and_then,
  buff_size, read_line, read_empty_line, read_non_empty_line, find_block_start, check_name,
  read_names, read_children, parse_children, parse_node, get_tree_from_file, at_end,
}

-- The run kept within its fuel, and what it returns and leaves of the file has the property.
pub data Ends {A : Type 0} (P : A → List ℕ → Type 0) : Result A → Type 0 where
  returns : {a : A} {rest : List ℕ} → P a rest → Ends P (ok a rest)
  fails : Ends P failed

Ends-then :
    {A B : Type 0} {P : A → List ℕ → Type 0} {Q : B → List ℕ → Type 0} {r : Result A}
    (k : A → Parser B)
    → Ends P r
    → ((a : A) (rest : List ℕ) → P a rest → Ends Q (k a rest))
    → Ends Q (and_then k r)
Ends-then k (returns p) next = next _ _ p
Ends-then k fails next = fails

Ends-if :
    {A : Type 0} {P : A → List ℕ → Type 0} {x y : Result A} (b : Bool)
    → Ends P x
    → Ends P y
    → Ends P (if b then x else y)
Ends-if true x y = x
Ends-if false x y = y

Ends-if_parser :
    {A : Type 0} {P : A → List ℕ → Type 0} {file : List ℕ} (b : Bool) (p q : Parser A)
    → Ends P (p file)
    → Ends P (q file)
    → Ends P ((if b then p else q) file)
Ends-if_parser true p q x y = x
Ends-if_parser false p q x y = y

Ends-mono :
    {A : Type 0} {P Q : A → List ℕ → Type 0} {r : Result A}
    → Ends P r
    → ((a : A) (rest : List ℕ) → P a rest → Q a rest)
    → Ends Q r
Ends-mono (returns p) weaken = returns (weaken _ _ p)
Ends-mono fails weaken = fails

-- No more of the file than before is left.
abbrev AtMost : {A : Type 0} → ℕ → A → List ℕ → Type 0
AtMost n a rest = length rest ≤ n

-- A line takes at least a character.
abbrev TookLine : {A : Type 0} → ℕ → Option A → List ℕ → Type 0
TookLine n none rest = length rest ≤ n
TookLine n (some a) rest = length rest < n

fgets-length : (k : ℕ) (file : List ℕ) → length (fgets k file).1 ≤ length file
unfolding fgets
fgets-length zero file = omega arith
fgets-length (suc k) [] = omega arith
fgets-length (suc k) (c ∷ file) = ground (arith, fgets-length k file)

fgets_some-length : (k c : ℕ) (file : List ℕ) → length (fgets (suc k) (c ∷ file)).1 ≤ length file
unfolding fgets
fgets_some-length k c file = ground (arith, fgets-length k file)

read_line-Ends : (file : List ℕ) → Ends (TookLine (length file)) (read_line file)
unfolding read_line
read_line-Ends [] = returns (omega arith)
read_line-Ends (c ∷ file) =
    Ends-if (length (c_string (fgets 1023 (c ∷ file)).0) == buff_size - 1) fails
      (returns (omega (arith, fgets_some-length 1022 c file)))

read_empty_line-Ends : (file : List ℕ) → Ends (AtMost (length file)) (read_empty_line file)
unfolding read_empty_line
read_empty_line-Ends file = Ends-then _ (read_line-Ends file) (elim [
  | none ↦ λ rest le. returns le
  | some [] ↦ λ rest le. returns (omega (arith, le))
  | some (c ∷ cs) ↦ λ rest le. fails
])

read_non_empty_line-Ends : (file : List ℕ) → Ends (AtMost (length file)) (read_non_empty_line file)
unfolding read_non_empty_line
read_non_empty_line-Ends file = Ends-then _ (read_line-Ends file) (elim [
  | none ↦ λ rest le. fails
  | some [] ↦ λ rest le. fails
  | some (c ∷ cs) ↦ λ rest le. returns (omega (arith, le))
])

TookLine-le :
    {A : Type 0} {m n : ℕ} (o : Option A) (rest : List ℕ)
    → m ≤ n
    → TookLine m o rest
    → TookLine n o rest
TookLine-le none rest le took = omega (arith, le, took)
TookLine-le (some a) rest le took = omega (arith, le, took)

find_block_start-Ends :
    (fuel : ℕ) (file : List ℕ)
    → length file < fuel
    → Ends (TookLine (length file)) (find_block_start fuel file)
unfolding find_block_start
find_block_start-Ends zero file enough = absurd (omega arith)
find_block_start-Ends (suc fuel) file enough =
    let again = λ (rest : List ℕ) (le : length rest < length file).
      Ends-mono (find_block_start-Ends fuel rest (omega (arith, le, enough)))
        λ o rest' took. TookLine-le o rest' (omega (arith, le)) took in
    Ends-then _ (read_line-Ends file) (elim [
      | none ↦ λ rest le. returns le
      | some [] ↦ λ rest le. again rest le
      | some (c ∷ cs) ↦ λ rest le. Ends-if_parser (c == 35) _ _ (again rest le) (returns le)
    ])

check_name-Ends :
    (alloc : ℕ → Bool) (given : Option (List ℕ)) (line file : List ℕ)
    → Ends (AtMost (length file)) (check_name alloc given line file)
unfolding check_name
check_name-Ends alloc none line file = Ends-if_parser (alloc 1) _ _ (returns (omega arith)) fails
check_name-Ends alloc (some name) line file =
    Ends-if_parser (strncmp_equal 16 name line) _ _ (returns (omega arith)) fails

read_names-Ends : (nr : ℕ) (file : List ℕ) → Ends (AtMost (length file)) (read_names nr file)
unfolding read_names
read_names-Ends zero file = returns (omega arith)
read_names-Ends (suc nr) file = Ends-then _ (read_non_empty_line-Ends file) λ name rest le.
    Ends-then _ (read_names-Ends nr rest) λ names rest' le'. returns (omega (arith, le, le'))

read_children-Ends :
    (alloc : ℕ → Bool) (file : List ℕ) → Ends (AtMost (length file)) (read_children alloc file)
unfolding read_children
read_children-Ends alloc file = Ends-then _ (read_non_empty_line-Ends file) λ num rest le.
    let nr = to_unsigned (clamp (atoi num)) in
    Ends-if_parser (alloc_children alloc nr) _ _
      (Ends-mono (read_names-Ends nr rest) λ names rest' le'. omega (arith, le, le')) fails

parse_children-Ends :
    (p : List ℕ → Parser (Option Tree)) (n : ℕ)
    → ((name file : List ℕ) → length file < n → Ends (AtMost (length file)) (p name file))
    → (names : List (List ℕ)) (file : List ℕ) → length file < n
    → Ends (AtMost (length file)) (parse_children p names file)
unfolding parse_children
parse_children-Ends p n parses [] file lt = returns (omega arith)
parse_children-Ends p n parses (name ∷ names) file lt =
    Ends-then _ (parses name file lt) λ child rest le.
      Ends-then _ (parse_children-Ends p n parses names rest (omega (arith, le, lt)))
        λ forest rest' le'. returns (omega (arith, le, le'))

at_end-Ends :
    (given : Option (List ℕ)) (rest : List ℕ) (n : ℕ)
    → length rest ≤ n
    → Ends (AtMost n) (at_end given rest)
at_end-Ends none rest n le = returns le
at_end-Ends (some name) rest n le = fails

parse_node-Ends :
    (alloc : ℕ → Bool) (fuel : ℕ) (given : Option (List ℕ)) (file : List ℕ)
    → length file < fuel
    → Ends (AtMost (length file)) (parse_node alloc fuel given file)
unfolding parse_node
parse_node-Ends alloc zero given file enough = absurd (omega arith)
parse_node-Ends alloc (suc fuel) given file enough =
    Ends-then _ (find_block_start-Ends (suc fuel) file enough) (elim [
      | none ↦ λ rest le. at_end-Ends given rest (length file) le
      | some line ↦ λ rest le. Ends-then _ (check_name-Ends alloc given line rest) λ name rest₁ le₁.
          Ends-then _ (read_children-Ends alloc rest₁) λ names rest₂ le₂.
            Ends-then _ (read_empty_line-Ends rest₂) λ blank rest₃ le₃.
              Ends-then _
                (parse_children-Ends (λ child. parse_node alloc fuel (some child)) fuel
                  (λ child file' lt. parse_node-Ends alloc fuel (some child) file' lt) names rest₃
                  (omega (arith, le, le₁, le₂, le₃, enough)))
                λ children rest₄ le₄. returns (omega (arith, le, le₁, le₂, le₃, le₄))
    ])

Ends-not_fuel : {A : Type 0} {P : A → List ℕ → Type 0} {r : Result A} → Ends P r → r ≢ out_of_fuel
Ends-not_fuel (returns p) = cc
Ends-not_fuel fails = cc

-- On every file, whatever it holds and however much memory there is, `get_tree_from_file` comes to an
-- end: it returns a tree, or NULL, or it ends the program.
pub get_tree_from_file-ends :
    (alloc : ℕ → Bool) (file : List ℕ) → get_tree_from_file alloc file ≢ out_of_fuel
unfolding get_tree_from_file
get_tree_from_file-ends alloc file =
    Ends-not_fuel (parse_node-Ends alloc (length file + 1) none file (omega arith))
