-- ===== src/Exer4/Cmdline/Defs.antt =====
-- exer4/prio/shell.c, by function.
use cslab_os.Base.{ℕ, zero, suc, ◌-◌, ◌==◌, ◌||◌, Bool, List, [], ◌∷◌, if◌then◌else◌}
use cslab_os.Base.Int.{ℤ}
use cslab_os.Exer4.Plist.Ops.{strncpy}
use cslab_os.Text.{c_string, fgets, atoi}

-- if (buf[strlen(buf) - 1] == '\n') buf[strlen(buf) - 1] = '\0';
unfoldable pub strip_newline : List ℕ → List ℕ
strip_newline [] = []
strip_newline (c ∷ []) = if c == 10 then [] else c ∷ []
strip_newline (c ∷ d ∷ cs) = c ∷ strip_newline (d ∷ cs)

-- `no_line` is `exit(1)` at the end of the input, `out_of_bounds` the access to `buf[-1]`.
pub data Reading : Type 0 where
  cmdline : List ℕ → List ℕ → Reading
  no_line : Reading
  out_of_bounds : Reading

abbrev pub stripped : List ℕ → List ℕ → Reading
stripped [] stream = out_of_bounds
stripped (c ∷ cs) stream = cmdline (strip_newline (c ∷ cs)) stream

unfoldable pub get_cmdline : ℕ → List ℕ → Reading
get_cmdline bufsz [] = no_line
get_cmdline bufsz (c ∷ stream) =
    let r = fgets (bufsz - 1) (c ∷ stream) in stripped (c_string r.0) r.1

-- `struct request_struct`, with the fields that the request uses.
pub data RequestStruct : Type 0 where
  print_tasks : RequestStruct
  kill_task high_task low_task : ℤ → RequestStruct
  exec_task : List ℕ → RequestStruct

-- What a command line leads to; `quit` is `exit(0)`.
pub data Command : Type 0 where
  help quit bad_command : Command
  issue : RequestStruct → Command

abbrev pub exec_task_name_sz : ℕ
exec_task_name_sz = 60

-- xs[i] = c
abbrev pub set_elem : List ℕ → ℕ → ℕ → List ℕ
set_elem [] i c = []
set_elem (x ∷ xs) zero c = c ∷ xs
set_elem (x ∷ xs) (suc i) c = x ∷ set_elem xs i c

-- The 60 bytes of `exec_task_arg`.
unfoldable pub exec_task_arg : List ℕ → List ℕ
exec_task_arg name = set_elem (strncpy exec_task_name_sz name) (exec_task_name_sz - 1) 0

-- A letter, in lower or upper case.
abbrev pub is_letter : (lower upper c : ℕ) → Bool
is_letter lower upper c = (c == lower) || (c == upper)

-- The commands of one letter, "?" "q" "p".
unfoldable pub letter_command : ℕ → Command
letter_command c =
    if c == 63
    then help
    else if is_letter 113 81 c
    then quit
    else if is_letter 112 80 c
    then issue print_tasks
    else bad_command

-- The commands with an argument, "k" "e" "h" "l".
unfoldable pub argument_command : ℕ → List ℕ → Command
argument_command c arg =
    if is_letter 107 75 c
    then issue (kill_task (atoi arg))
    else if is_letter 101 69 c
    then issue (exec_task (exec_task_arg arg))
    else if is_letter 104 72 c
    then issue (high_task (atoi arg))
    else if is_letter 108 76 c
    then issue (low_task (atoi arg))
    else bad_command

unfoldable pub process_cmdline : List ℕ → Command
process_cmdline [] = help
process_cmdline (c ∷ []) = letter_command c
process_cmdline (c ∷ d ∷ arg) = if d == 32 then argument_command c arg else bad_command
