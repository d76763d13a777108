-- ===== src/Text.antt =====
-- The functions of the C library on strings that the programs use. Characters are their codes, and a
-- C string is the list of the characters before its NUL.
pub mod Lines
pub mod Numbers
pub mod Decimal
pub mod Strtol
use cslab_os.Base.{
  ℕ, zero, suc, ◌+◌, ◌-◌, ◌*◌, ◌^◌, ◌<◌, ◌≤◌, ◌≡◌, refl, sym, ap, ◌==◌, ltb, leb, ◌&&◌, ◌||◌, Bool,
  true, false, List, [], ◌∷◌, ◌++◌, if◌then◌else◌, arith, length, any, map, not,
}
use cslab_os.Base.Int.{ℤ, pos, negate}

-- The characters before the NUL, or all of them if there is none.
unfoldable pub c_string : List ℕ → List ℕ
c_string [] = []
c_string (c ∷ cs) = if c == 0 then [] else c ∷ c_string cs

-- The library's `fgets`: at most `k` characters, up to a newline, and what is left of the stream.
unfoldable pub fgets : ℕ → List ℕ → List ℕ × List ℕ
fgets zero stream = ([], stream)
fgets (suc k) [] = ([], [])
fgets (suc k) (c ∷ stream) =
    let more = fgets k stream in if c == 10 then (10 ∷ [], stream) else (c ∷ more.0, more.1)

abbrev pub is_digit : ℕ → Bool
is_digit c = leb 48 c && leb c 57

abbrev pub is_space : ℕ → Bool
is_space c = (c == 32) || (leb 9 c && leb c 13)

-- The library's `atoi`, where the number fits into an `int`: spaces, a sign, digits.
unfoldable pub digits_value : ℕ → List ℕ → ℕ
digits_value acc [] = acc
digits_value acc (c ∷ cs) = if is_digit c then digits_value (acc * 10 + (c - 48)) cs else acc

unfoldable pub signed_value : List ℕ → ℤ
signed_value [] = pos 0
signed_value (c ∷ cs) =
    if c == 45
    then negate (digits_value 0 cs)
    else if c == 43
    then pos (digits_value 0 cs)
    else pos (digits_value 0 (c ∷ cs))

unfoldable pub atoi : List ℕ → ℤ
atoi [] = pos 0
atoi (c ∷ cs) = if is_space c then atoi cs else signed_value (c ∷ cs)
