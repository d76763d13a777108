-- ===== src/Exer1/Fconc/Program.antt =====
-- exer1/fconc/fconc.c and fconc2.c: the whole programs, on a file system. A file is known by its device
-- and its inode number, and a name is that of a file or of none.
use cslab_os.Base.{
  ℕ, ◌==◌, ◌&&◌, Bool, true, false, Option, none, some, List, [], ◌∷◌, if◌then◌else◌, map,
}
use cslab_os.Exer1.Fconc.Defs.{
  Sys, World, Outcome, done, died, out_of_fuel, concatenate, check_if_same,
}
pub mod Output
pub mod Inputs
pub mod Concat
mod Tests

abbrev pub Name : Type 0
Name = List ℕ

-- The device, and the inode number on it.
abbrev pub FileId : Type 0
FileId = ℕ × ℕ

abbrev pub same_id : FileId → FileId → Bool
same_id (dev, ino) (dev', ino') = (dev == dev') && (ino == ino')

pub record Fs : Type 0 where
  pub lookup : Name → Option FileId
  pub contents : FileId → List ℕ

-- Whether `stat` succeeds on a name that is there, what `open` allows, the file that it makes for a new name, and whether `malloc` succeeds.
pub record Files : Type 0 where
  pub can_stat : Name → Bool
  pub can_read : Name → Bool
  pub can_write : Name → Bool
  pub fresh : Name → FileId
  pub memory : Bool
  pub io : Sys

-- `exit(0)` in `usage`; `die` with the file system as it is, or while copying, where the output holds what
-- was written until then; or the end of `main`.
pub data Exit : Type 0 where
  usage : Exit
  dies dies_copying ends : Fs → Exit

unfoldable pub get_ino : Files → Fs → Name → ℕ
get_ino files fs name = elim (fs.lookup name) [
  | none ↦ 0
  | some (dev, ino) ↦ if files.can_stat name then ino else 0
]

-- The loop over the inputs with `check_if_same`.
unfoldable pub check_all : Files → Fs → List Name → Name → Bool
check_all files fs [] out = true
check_all files fs (name ∷ names) out =
    check_if_same (get_ino files fs name) (get_ino files fs out) && check_all files fs names out

unfoldable pub open_fin : Files → Fs → Name → Option FileId
open_fin files fs name = elim (fs.lookup name) [
  | none ↦ none
  | some file ↦ if files.can_read name then some file else none
]

-- O_TRUNC
abbrev pub truncate : FileId → (FileId → List ℕ) → FileId → List ℕ
truncate file contents other = if same_id other file then [] else contents other

-- The name is only compared, so that a new file is found under it.
abbrev pub same_name : Name → Name → Bool
same_name [] [] = true
same_name [] (d ∷ ds) = false
same_name (c ∷ cs) [] = false
same_name (c ∷ cs) (d ∷ ds) = (c == d) && same_name cs ds

abbrev pub create : Fs → Name → FileId → Fs
create fs name file = record {
  lookup = λ other. if same_name other name then some file else fs.lookup other;
  contents = truncate file fs.contents;
}

unfoldable pub open_fout : Files → Fs → Name → Option (FileId × Fs)
open_fout files fs name = elim (fs.lookup name) [
  | none ↦
      if files.can_write name
      then some (files.fresh name, create fs name (files.fresh name))
      else none
  | some file ↦
      if files.can_write name
      then some (file, record fs { contents = truncate file fs.contents })
      else none
]

-- The inputs in order, or none when one of them cannot be opened.
unfoldable pub open_all : Files → Fs → List Name → Option (List FileId)
open_all files fs [] = some []
open_all files fs (name ∷ names) = elim (open_fin files fs name) [
  | none ↦ none
  | some file ↦ elim (open_all files fs names) [ none ↦ none | some rest ↦ some (file ∷ rest) ]
]

abbrev pub fill : FileId → Fs → List ℕ → Fs
fill file fs out = record fs {
  contents = λ other. if same_id other file then out else fs.contents other;
}

abbrev pub with_output : FileId → Fs → Outcome (Unit {0}) → Exit
with_output file fs (done u w) = ends (fill file fs w.out)
with_output file fs (died w) = dies_copying (fill file fs w.out)
with_output file fs out_of_fuel = dies_copying fs

-- The copying, when the inputs are open. They are read after the output was emptied.
abbrev pub copy_to : Files → Fs → List FileId → Option (FileId × Fs) → Exit
copy_to files fs inputs none = dies fs
copy_to files fs inputs (some (file, fs')) =
    with_output file fs'
      (concatenate files.io (map fs'.contents inputs) (record { calls = 0; out = [] }))

abbrev pub open_and_copy : Files → Fs → Name → Option (List FileId) → Exit
open_and_copy files fs out none = dies fs
open_and_copy files fs out (some inputs) = copy_to files fs inputs (open_fout files fs out)

-- From the checks on.
unfoldable pub run : Files → Fs → List Name → Name → Exit
run files fs names out =
    if check_all files fs names out
    then open_and_copy files fs out (open_all files fs names)
    else dies fs

-- "fconc.out"
abbrev pub default_output : Name
default_output = 102 ∷ 99 ∷ 111 ∷ 110 ∷ 99 ∷ 46 ∷ 111 ∷ 117 ∷ 116 ∷ []

-- `main` of fconc.c, on the arguments after the program's name.
unfoldable pub fconc : Files → Fs → List Name → Exit
fconc files fs [] = usage
fconc files fs (a ∷ []) = usage
fconc files fs (a ∷ b ∷ []) = run files fs (a ∷ b ∷ []) default_output
fconc files fs (a ∷ b ∷ out ∷ []) = run files fs (a ∷ b ∷ []) out
fconc files fs (a ∷ b ∷ out ∷ c ∷ more) = usage

-- All arguments but the last, and the last.
abbrev pub but_last : Name → List Name → List Name
but_last a [] = []
but_last a (b ∷ more) = a ∷ but_last b more

abbrev pub last : Name → List Name → Name
last a [] = a
last a (b ∷ more) = last b more

-- `main` of fconc2.c.
unfoldable pub fconc2 : Files → Fs → List Name → Exit
fconc2 files fs [] = usage
fconc2 files fs (a ∷ []) = usage
fconc2 files fs (a ∷ b ∷ more) =
    if files.memory then run files fs (but_last a (b ∷ more)) (last b more) else dies fs
