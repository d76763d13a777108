-- ===== src/Exer1/Fconc/Program/Output.antt =====
-- The output's file, and the arguments of fconc2.
use cslab_os.Base.{
  ℕ, ◌≡◌, refl, ap, true, false, none, some, List, [], ◌∷◌, ◌++◌, if◌then◌else◌, Option-cases, inl,
  inr,
}
use cslab_os.Exer1.Fconc.Program.{
  Name, FileId, Fs, Files, Exit, usage, dies, dies_copying, ends, get_ino, truncate, create,
  open_fout, run, but_last, last, fconc2,
}

-- The files after a run.
abbrev pub after : Fs → Exit → Fs
after fs usage = fs
after fs (dies fs') = fs'
after fs (dies_copying fs') = fs'
after fs (ends fs') = fs'

-- The file that the output's name is or becomes.
unfoldable pub output_id : Files → Fs → Name → FileId
output_id files fs out = elim (fs.lookup out) [ none ↦ files.fresh out | some file ↦ file ]

-- The output is opened and emptied, or nothing is done.
pub open_fout-allowed :
    (files : Files) (fs : Fs) (out : Name)
    → files.can_write out ≡ true
    → (fs' : Fs) × (open_fout files fs out ≡ some (output_id files fs out, fs'))
      × (fs'.contents ≡ truncate (output_id files fs out) fs.contents)
unfolding open_fout output_id
open_fout-allowed files fs out allowed = elim (Option-cases (fs.lookup out)) [
  | inl new ↦ (
    create fs out (files.fresh out),
    rw (new, open_fout, output_id, allowed) refl,
    rw (new, output_id) refl,
  )
  | inr (file, old) ↦ (
    record fs { contents = truncate file fs.contents },
    rw (old, open_fout, output_id, allowed) refl,
    rw (old, output_id) refl,
  )
]

pub open_fout-refused :
    (files : Files) (fs : Fs) (out : Name)
    → files.can_write out ≡ false
    → open_fout files fs out ≡ none
unfolding open_fout
open_fout-refused files fs out refused = elim (Option-cases (fs.lookup out)) [
  | inl new ↦ rw (new, open_fout, refused) refl
  | inr (file, old) ↦ rw (old, open_fout, refused) refl
]

pub get_ino-file :
    (files : Files) (fs : Fs) (name : Name) (dev ino : ℕ)
    → files.can_stat name ≡ true
    → fs.lookup name ≡ some (dev, ino)
    → get_ino files fs name ≡ ino
unfolding get_ino
get_ino-file files fs name dev ino found e = rw (e, get_ino, found) refl

-- `get_ino` answers 0 when `stat` fails.
pub get_ino-fails :
    (files : Files) (fs : Fs) (name : Name)
    → files.can_stat name ≡ false
    → get_ino files fs name ≡ 0
unfolding get_ino
get_ino-fails files fs name fails = elim (Option-cases (fs.lookup name)) [
  | inl absent ↦ rw (absent, get_ino) refl
  | inr ((dev, ino), e) ↦ rw (e, get_ino, fails) refl
]

but_last-snoc :
    (a : Name) (names : List Name) (out : Name) → but_last a (names ++ out ∷ []) ≡ a ∷ names
but_last-snoc a [] out = refl
but_last-snoc a (b ∷ names) out = ap (λ more. a ∷ more) (but_last-snoc b names out)

last-snoc : (a : Name) (names : List Name) (out : Name) → last a (names ++ out ∷ []) ≡ out
last-snoc a [] out = refl
last-snoc a (b ∷ names) out = last-snoc b names out

-- The arguments are the inputs and then the output.
pub fconc2-run :
    (files : Files) (fs : Fs) (a : Name) (names : List Name) (out : Name)
    → fconc2 files fs (a ∷ (names ++ out ∷ []))
      ≡ (if files.memory then run files fs (a ∷ names) out else dies fs)
unfolding fconc2
fconc2-run files fs a [] out = refl
fconc2-run files fs a (b ∷ names) out = rw (but_last-snoc b names out, last-snoc b names out) refl
