-- ===== src/Exer1/Fconc/Program/Concat.antt =====
-- A run of fconc2 that nothing hinders leaves the inputs in the output, one after the other.
use cslab_os.Base.{
  ℕ, ◌≡◌, ◌≢◌, ◌⊎◌, refl, sym, ap, ap₂, ◌∙◌, Bool, true, some, List, [], ◌∷◌, ◌++◌, if◌then◌else◌,
  map, arith, Bool-cases, Option-cases, inl, inr,
}
use cslab_os.Exer1.Fconc.Defs.{check_if_same}
use cslab_os.Exer1.Fconc.Copies.{Cooperates, concat, concatenate-concat}
use cslab_os.Exer1.Fconc.Program.{
  Name, FileId, same_id, Fs, Files, dies, ends, get_ino, check_all, open_fin, truncate, open_all,
  run, fconc2,
}
use cslab_os.Exer1.Fconc.Program.Output.{
  output_id, open_fout-allowed, get_ino-file, get_ino-fails, fconc2-run,
}

-- A failing `stat` gives 0, which passes the check.
get_ino-either :
    (files : Files) (fs : Fs) (name : Name) (dev ino : ℕ)
    → fs.lookup name ≡ some (dev, ino)
    → (get_ino files fs name ≡ ino) ⊎ (get_ino files fs name ≡ 0)
get_ino-either files fs name dev ino found = elim (Bool-cases (files.can_stat name)) [
  | inl known ↦ inl (get_ino-file files fs name dev ino known found)
  | inr fails ↦ inr (get_ino-fails files fs name fails)
]

-- The inputs of a run, each with its file: there, readable, and with another inode number than the
-- output's file.
abbrev pub Ready : Files → Fs → Name → List (Name × FileId) → Type 0
Ready files fs out [] = Unit
Ready files fs out ((name, file) ∷ inputs) =
    (fs.lookup name ≡ some file)
    × (files.can_read name ≡ true)
    × (file.1 ≢ (output_id files fs out).1)
    × Ready files fs out inputs

abbrev pub names_of : List (Name × FileId) → List Name
names_of inputs = map (λ input. input.0) inputs

abbrev pub ids_of : List (Name × FileId) → List FileId
ids_of inputs = map (λ input. input.1) inputs

module _ (files : Files) (fs : Fs) (out : Name) where
  check_if_same-Ready :
      (name : Name) (file : FileId)
      → fs.lookup name ≡ some file
      → file.1 ≢ (output_id files fs out).1
      → check_if_same (get_ino files fs name) (get_ino files fs out) ≡ true
  unfolding check_if_same output_id get_ino
  check_if_same-Ready name (dev, ino) found other = elim (Option-cases (fs.lookup out)) [
    | inl absent ↦
        let no_file : get_ino files fs out ≡ 0 = rw (absent, get_ino) refl in
        ground (arith, no_file)
    | inr ((dev', ino'), e) ↦
        let this = get_ino-either files fs name dev ino found in
        let that = get_ino-either files fs out dev' ino' e in
        let output : output_id files fs out ≡ (dev', ino') = rw (e, output_id) refl in
        let apart : ino ≢ ino' = λ same. other (same ∙ sym (ap (λ file. file.1) output)) in
        ground (arith, this, that, apart)
  ]

  check_all-Ready :
      (inputs : List (Name × FileId))
      → Ready files fs out inputs
      → check_all files fs (names_of inputs) out ≡ true
  unfolding check_all
  check_all-Ready [] ready = refl
  check_all-Ready ((name, file) ∷ inputs) (found, readable, other, ready) =
      rw (check_if_same-Ready name file found other) (check_all-Ready inputs ready)

  open_all-Ready :
      (inputs : List (Name × FileId))
      → Ready files fs out inputs
      → open_all files fs (names_of inputs) ≡ some (ids_of inputs)
  unfolding open_all open_fin
  open_all-Ready [] ready = refl
  open_all-Ready ((name, file) ∷ inputs) (found, readable, other, ready) =
      rw (found, open_all, open_fin, readable, open_all-Ready inputs ready) refl

  -- Emptying the output does not touch the inputs.
  map-truncate :
      (inputs : List (Name × FileId))
      → Ready files fs out inputs
      → map (truncate (output_id files fs out) fs.contents) (ids_of inputs)
        ≡ map fs.contents (ids_of inputs)
  map-truncate [] ready = refl
  map-truncate ((name, (dev, ino)) ∷ inputs) (found, readable, other, ready) =
      ap₂ (λ text texts. text ∷ texts) (ground (arith, other)) (map-truncate inputs ready)

-- When every input can be read and has another inode number than the output's file, the output can be
-- written, and each `read` and `write` moves at least a byte of those at hand: the run ends with the
-- contents of the inputs, one after the other, in the output's file, and every other file is as it was.
run-concat :
    (files : Files) (fs : Fs) (out : Name) (inputs : List (Name × FileId))
    → Cooperates files.io.write
    → Cooperates files.io.read
    → Ready files fs out inputs
    → files.can_write out ≡ true
    → (fs' : Fs) × (run files fs (names_of inputs) out ≡ ends fs')
      × ((id : FileId)
          → fs'.contents id ≡ (
              if same_id id (output_id files fs out)
              then concat (map fs.contents (ids_of inputs))
              else fs.contents id))
unfolding run
run-concat files fs out inputs writes reads ready allowed =
    let (fs', opened, emptied) = open_fout-allowed files fs out allowed in
    let file = output_id files fs out in
    let texts : map fs'.contents (ids_of inputs) ≡ map fs.contents (ids_of inputs) =
      ap (λ (contents : FileId → List ℕ). map contents (ids_of inputs)) emptied
      ∙ map-truncate files fs out inputs ready in
    let (c, copied) =
      concatenate-concat files.io writes reads (map fs'.contents (ids_of inputs))
        (record { calls = 0; out = [] }) in
    (
      record fs' {
        contents = λ other.
            if same_id other file
            then concat (map fs'.contents (ids_of inputs))
            else fs'.contents other;
      },
      rw
          (
            check_all-Ready files fs out inputs ready,
            open_all-Ready files fs out inputs ready,
            opened,
            copied,
          )
          refl,
      λ id. elim (Bool-cases (same_id id file)) [
        | inl same ↦ rw same (ap concat texts)
        | inr other ↦
            rw other (ap (λ (contents : FileId → List ℕ). contents id) emptied ∙ rw other refl)
      ],
    )

-- When there is memory, every input can be read and has another inode number than the output's file, the
-- output can be written, and each `read` and `write` moves at least a byte of those at hand: a run of
-- fconc2 on one or more inputs and an output ends with the contents of the inputs, one after the other,
-- in the output's file, and every other file is as it was.
pub fconc2-concat :
    (files : Files) (fs : Fs) (out : Name) (input : Name × FileId) (inputs : List (Name × FileId))
    → Cooperates files.io.write
    → Cooperates files.io.read
    → files.memory ≡ true
    → Ready files fs out (input ∷ inputs)
    → files.can_write out ≡ true
    → (fs' : Fs) × (fconc2 files fs (input.0 ∷ (names_of inputs ++ out ∷ [])) ≡ ends fs')
      × ((id : FileId)
          → fs'.contents id ≡ (
              if same_id id (output_id files fs out)
              then concat (map fs.contents (ids_of (input ∷ inputs)))
              else fs.contents id))
fconc2-concat files fs out input inputs writes reads memory ready allowed =
    let (fs', ran, contents) =
      run-concat files fs out (input ∷ inputs) writes reads ready allowed in
    (
      fs',
      fconc2-run files fs input.0 (names_of inputs) out
          ∙ ap (λ (b : Bool). if b then run files fs (names_of (input ∷ inputs)) out else dies fs)
              memory
          ∙ ran,
      contents,
    )
