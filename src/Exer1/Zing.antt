-- ===== src/Exer1/Zing.antt =====
-- exer1/zing/zing2.c: a greeting in a buffer from `malloc`, and the loop that writes it. How many bytes a
-- `write` moves is the system's choice, as in Exer1.Fconc.
use cslab_os.Base.{
  ℕ, zero, suc, ◌+◌, ◌-◌, ltb, Bool, true, false, Option, none, some, List, [], ◌∷◌, ◌++◌,
  if◌then◌else◌, length, take, drop,
}
use cslab_os.Exer1.Fconc.Defs.{Sys, World, Outcome, done, died, out_of_fuel}
pub mod Greets
mod Tests

-- The bytes that `malloc` was asked for, and the C string at their start.
pub record Buffer : Type 0 where
  pub size : ℕ
  pub text : List ℕ

-- The library's `strcat`, which does not look at the size.
abbrev pub strcat : Buffer → List ℕ → Buffer
strcat b s = record b { text = b.text ++ s }

-- How many bytes of the string, with its NUL, are past the end of the buffer.
unfoldable pub overrun : Buffer → ℕ
overrun b = length b.text + 1 - b.size

-- "Bye-Bye "
abbrev pub greet : List ℕ
greet = 66 ∷ 121 ∷ 101 ∷ 45 ∷ 66 ∷ 121 ∷ 101 ∷ 32 ∷ []

-- "Error occured\n"
abbrev pub error_text : List ℕ
error_text = 69 ∷ 114 ∷ 114 ∷ 111 ∷ 114 ∷ 32 ∷ 111 ∷ 99 ∷ 99 ∷ 117 ∷ 114 ∷ 101 ∷ 100 ∷ 10 ∷ []

-- `message[0]='\0'` and the three `strcat`.
unfoldable pub message : List ℕ → Buffer
message user =
    strcat
      (strcat (strcat (record { size = length greet + length user + 1; text = [] }) greet) user)
      (10 ∷ [])

-- The loop, with what `idx` is at its head.
unfoldable pub write_loop : Sys → ℕ → ℕ → List ℕ → World → Outcome (Unit {0})
write_loop sys zero idx text w = out_of_fuel
write_loop sys (suc fuel) idx text w = elim (sys.write w.calls (length (drop idx text))) [
  | none ↦ died w
  | some wcnt ↦
      let w' : World = record { calls = w.calls + 1; out = w.out ++ take wcnt (drop idx text) } in
      let rest = write_loop sys fuel (idx + wcnt) text w' in
      if ltb (idx + wcnt) (length text) then rest else done tt w'
]

-- The descriptor and what is written to it, on fuel. `user` is the answer of `getlogin`, and `memory`
-- says whether `malloc` gives a buffer.
unfoldable pub zing : Sys → (memory : Bool) → ℕ → Option (List ℕ) → ℕ × Outcome (Unit {0})
zing sys memory fuel none = (2, write_loop sys fuel 0 error_text (record { calls = 0; out = [] }))
zing sys memory fuel (some user) =
    if memory
    then (1, write_loop sys fuel 0 (message user).text (record { calls = 0; out = [] }))
    else (2, write_loop sys fuel 0 error_text (record { calls = 0; out = [] }))
