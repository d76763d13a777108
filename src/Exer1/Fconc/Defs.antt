-- ===== src/Exer1/Fconc/Defs.antt =====
-- exer1/fconc/defs.c and the copying in exer1/fconc/fconc.c. Files are lists of bytes. How many bytes a
-- `read` or `write` moves is the system's choice, by the number of calls before and the bytes at hand.
use cslab_os.Base.{
  ℕ, zero, suc, ◌+◌, ◌==◌, leb, Bool, true, Option, none, some, List, [], ◌∷◌, ◌++◌, if◌then◌else◌,
  length, take, drop,
}

-- `none` is the answer -1.
pub record Sys : Type 0 where
  pub write : ℕ → ℕ → Option ℕ
  pub read : ℕ → ℕ → Option ℕ

-- The calls so far and what was written to the output.
pub record World : Type 0 where
  pub calls : ℕ
  pub out : List ℕ

-- `died` is the `exit(-1)` of `die`, which leaves what was written.
pub data Outcome (A : Type 0) : Type 0 where
  done : A → World → Outcome A
  died : World → Outcome A
  out_of_fuel : Outcome A

-- The loop of `do_write`, with what `n_write` is at its head.
unfoldable pub do_write : Sys → ℕ → ℕ → List ℕ → World → Outcome ℕ
do_write sys zero n_write buf w = out_of_fuel
do_write sys (suc fuel) n_write buf w = elim (sys.write w.calls (length (drop n_write buf))) [
  | none ↦ died w
  | some zero ↦ done n_write (record w { calls = w.calls + 1 })
  | some (suc n) ↦
      do_write sys fuel (n_write + suc n) buf
        (record { calls = w.calls + 1; out = w.out ++ take (suc n) (drop n_write buf) })
]

-- The bytes that a `read` of 512 can find.
abbrev pub at_hand : List ℕ → ℕ
at_hand file = if leb (length file) 512 then length file else 512

abbrev pub then_copy : (World → Outcome (Unit {0})) → ℕ → Outcome ℕ → Outcome (Unit {0})
then_copy rest n_read (done n_write w) = if n_write == n_read then rest w else died w
then_copy rest n_read (died w) = died w
then_copy rest n_read out_of_fuel = out_of_fuel

-- The loop of `cat_contents`, on what of the input is still to be read. `do_write` gets fuel for each
-- byte and for the last call.
unfoldable pub cat_contents : Sys → ℕ → List ℕ → World → Outcome (Unit {0})
cat_contents sys zero file w = out_of_fuel
cat_contents sys (suc fuel) file w = elim (sys.read w.calls (at_hand file)) [
  | none ↦ died w
  | some zero ↦ done tt (record w { calls = w.calls + 1 })
  | some (suc n) ↦
      then_copy (cat_contents sys fuel (drop (suc n) file)) (length (take (suc n) file)) (
        do_write sys (length (take (suc n) file) + 1) 0 (take (suc n) file)
          (record w { calls = w.calls + 1 }))
]

abbrev pub then_next : (World → Outcome (Unit {0})) → Outcome (Unit {0}) → Outcome (Unit {0})
then_next rest (done a w) = rest w
then_next rest (died w) = died w
then_next rest out_of_fuel = out_of_fuel

-- The copying of `main` of fconc2.c, over the inputs in order.
unfoldable pub concatenate : Sys → List (List ℕ) → World → Outcome (Unit {0})
concatenate sys [] w = done tt w
concatenate sys (file ∷ files) w =
    then_next (concatenate sys files) (cat_contents sys (length file + 1) file w)

-- `check_if_same` ends the program on two equal inode numbers, but for 0, which stands for no file.
unfoldable pub check_if_same : (a b : ℕ) → Bool
check_if_same a b = if a == b then a == 0 else true
