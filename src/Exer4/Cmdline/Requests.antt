-- ===== src/Exer4/Cmdline/Requests.antt =====
-- What a command line asks for: numbers are read back, and names are cut to the room that is there.
use cslab_os.Base.{
  ℕ, leb, ◌&&◌, zero, suc, ◌-◌, ◌^◌, ◌<◌, ◌≡◌, refl, ◌==◌, ltb, Bool, true, false, List, [], ◌∷◌,
  ◌++◌, arith, length, any, if◌then◌else◌, take, drop, Bool-cases, inl, inr,
}
use cslab_os.Base.Int.{pos}
use cslab_os.Exer4.Plist.Ops.{strncpy, copy_name}
use cslab_os.Text.{c_string}
use cslab_os.Text.Numbers.{chars, place_value, is_no_digit, atoi-chars}
use cslab_os.Exer4.Cmdline.Defs.{
  letter_command, issue, kill_task, high_task, low_task, exec_task_arg, set_elem, argument_command,
  process_cmdline,
}

-- A string of `n` bytes and what follows it in memory, read as a C string.
c_string-strncpy :
    (n : ℕ) (src tail : List ℕ)
    → c_string (strncpy n src ++ tail) ≡ (
        if ltb (length (c_string src)) n
        then c_string src
        else take n (c_string src) ++ c_string tail)
unfolding c_string strncpy
c_string-strncpy zero src tail = ground arith
c_string-strncpy (suc n) [] tail = ground arith
c_string-strncpy (suc n) (c ∷ src) tail = elim (Bool-cases (c == 0)) [
  | inl nul ↦ rw nul (ground arith)
  | inr ch ↦ rw (ch, c_string-strncpy n src tail, ch) (ground arith)
]

c_string-set_elem :
    (n : ℕ) (src : List ℕ) → c_string (set_elem (strncpy (suc n) src) n 0) ≡ take n (c_string src)
unfolding c_string strncpy
c_string-set_elem zero [] = refl
c_string-set_elem zero (c ∷ src) = elim (Bool-cases (c == 0)) [
  | inl e ↦ rw e refl
  | inr e ↦ rw e refl
]
c_string-set_elem (suc n) [] = refl
c_string-set_elem (suc n) (c ∷ src) = elim (Bool-cases (c == 0)) [
  | inl nul ↦ rw nul refl
  | inr ch ↦ rw (ch, c_string-set_elem n src, ch) refl
]

-- The name in a new node, read as a C string, is the given name when that has fewer than 59
-- characters. A longer one is cut to 59 characters, and whatever lay in the last byte of the node's
-- memory follows them.
pub c_string-copy_name :
    (bytes name : List ℕ)
    → c_string (copy_name bytes name) ≡ (
        if ltb (length (c_string name)) 59
        then c_string name
        else take 59 (c_string name) ++ c_string (drop 59 bytes))
unfolding copy_name
c_string-copy_name bytes name = c_string-strncpy 59 name (drop 59 bytes)

-- The program's name in a request, read as a C string, is the name that was typed, cut to 59
-- characters.
pub c_string-exec_task_arg :
    (name : List ℕ) → c_string (exec_task_arg name) ≡ take 59 (c_string name)
unfolding exec_task_arg
c_string-exec_task_arg name = c_string-set_elem 59 name

-- A command line "k ", "h " or "l " followed by decimal digits, at least one, asks to kill the task,
-- or to set it to high or to low priority, whose id the digits write by place value, when that
-- number fits into an `int` of 32 bits.
pub process_cmdline-decimal :
    (d : ℕ) (ds : List ℕ)
    → any is_no_digit (d ∷ ds) ≡ false
    → place_value (d ∷ ds) < 2 ^ 31
    → (process_cmdline (107 ∷ 32 ∷ chars (d ∷ ds)) ≡ issue (kill_task (pos (place_value (d ∷ ds)))))
      × (process_cmdline (104 ∷ 32 ∷ chars (d ∷ ds))
          ≡ issue (high_task (pos (place_value (d ∷ ds)))))
      × (process_cmdline (108 ∷ 32 ∷ chars (d ∷ ds))
          ≡ issue (low_task (pos (place_value (d ∷ ds)))))
unfolding process_cmdline argument_command
process_cmdline-decimal d ds digits fits =
    let e = atoi-chars d ds digits in (rw e refl, rw e refl, rw e refl)

abbrev pub is_small : ℕ → Bool
is_small c = leb 97 c && leb c 122

-- A command line that starts with a small letter, and the same one with that letter as a capital, ask
-- for the same.
pub process_cmdline-upper :
    (c : ℕ) (rest : List ℕ)
    → is_small c ≡ true
    → process_cmdline ((c - 32) ∷ rest) ≡ process_cmdline (c ∷ rest)
unfolding process_cmdline argument_command letter_command
process_cmdline-upper c [] small = ground arith
process_cmdline-upper c (d ∷ arg) small = ground arith
