-- ===== src/Exer1/Fconc/Program/Tests.antt =====
-- Two files, with a new output and with the first of them as the output.
use cslab_os.Base.{
  ℕ, zero, suc, ◌<◌, ◌≤◌, ◌≡◌, refl, true, Option, none, some, arith, [], ◌∷◌, ◌++◌, if◌then◌else◌,
  map, false,
}
use cslab_os.Exer1.Fconc.Defs.{do_write, cat_contents, concatenate, check_if_same}
use cslab_os.Exer1.Fconc.Copies.{Cooperates, concat}
use cslab_os.Exer1.Fconc.Program.{
  Name, FileId, same_id, same_name, Fs, Files, ends, fconc2, run, check_all, check_if_same, get_ino,
  open_all, open_fin, open_fout, concatenate,
}
use cslab_os.Exer1.Fconc.Program.Output.{after, output_id}
use cslab_os.Exer1.Fconc.Program.Inputs.{fconc2-keeps}
use cslab_os.Exer1.Fconc.Program.Concat.{Ready, ids_of, fconc2-concat}

abbrev byte_by_byte : ℕ → ℕ → Option ℕ
byte_by_byte c zero = some 0
byte_by_byte c (suc n) = some 1

byte_by_byte-Cooperates : Cooperates byte_by_byte
byte_by_byte-Cooperates = record { nothing = λ c. refl; something = one_byte }
  where
    one_byte : (c n : ℕ) → 0 < n → (k : ℕ) × (byte_by_byte c n ≡ some (suc k)) × (suc k ≤ n)
    one_byte c zero h = absurd (omega arith)
    one_byte c (suc n) h = (0, refl, omega arith)

abbrev a : Name
a = 97 ∷ []

abbrev b : Name
b = 98 ∷ []

abbrev o : Name
o = 111 ∷ []

abbrev fs : Fs
fs = record {
  lookup = λ name.
      if same_name name a then some (1, 10) else if same_name name b then some (1, 11) else none;
  contents = λ file.
      if same_id file (1, 10) then 1 ∷ 2 ∷ [] else if same_id file (1, 11) then 3 ∷ [] else [];
}

abbrev files : Files
files = record {
  can_stat = λ name. true;
  can_read = λ name. true;
  can_write = λ name. true;
  fresh = λ name. (1, 12);
  memory = true;
  io = record { write = byte_by_byte; read = byte_by_byte };
}

fconc2-keeps_example :
    (after fs (fconc2 files fs (a ∷ ((b ∷ []) ++ a ∷ [])))).contents (1, 10) ≡ 1 ∷ 2 ∷ []
fconc2-keeps_example =
    fconc2-keeps files fs a (b ∷ []) a a 1 10 refl refl (omega arith) refl refl refl

-- When `stat` fails on the output's name, an input of that name is not spared.
abbrev no_stat : Files
no_stat = record files { can_stat = λ name. false }

fconc2-overwrites : (after fs (fconc2 no_stat fs (a ∷ b ∷ a ∷ []))).contents (1, 10) ≡ 3 ∷ []
unfolding fconc2 run check_all check_if_same get_ino open_all open_fin open_fout concatenate
    cat_contents do_write
fconc2-overwrites = refl

inputs-Ready : Ready files fs o ((a, (1, 10)) ∷ (b, (1, 11)) ∷ [])
unfolding output_id
inputs-Ready = (refl, refl, omega arith, (refl, refl, omega arith, tt))

fconc2-concat_example :
    (fs' : Fs) × (fconc2 files fs (a ∷ b ∷ o ∷ []) ≡ ends fs')
    × ((id : FileId)
        → fs'.contents id ≡ (
            if same_id id (output_id files fs o)
            then concat (map fs.contents (ids_of ((a, (1, 10)) ∷ (b, (1, 11)) ∷ [])))
            else fs.contents id))
fconc2-concat_example =
    fconc2-concat files fs o (a, (1, 10)) ((b, (1, 11)) ∷ []) byte_by_byte-Cooperates
      byte_by_byte-Cooperates refl inputs-Ready refl
