-- ===== src/Exer1/Fconc/Program/Inputs.antt =====
-- No run of fconc2 changes an input on which, as on the output, `stat` succeeds.
use cslab_os.Base.{
  ℕ, ◌≡◌, ◌≢◌, refl, sym, ap, ap₂, ◌∙◌, Bool, true, false, Option, none, some, List, [], ◌∷◌, ◌++◌,
  if◌then◌else◌, any, arith, Bool-cases, Option-cases, inl, inr,
}
use cslab_os.Exer1.Fconc.Defs.{Outcome, done, died, out_of_fuel, check_if_same}
use cslab_os.Exer1.Fconc.Program.{
  Name, FileId, same_id, Fs, Files, dies, get_ino, check_all, same_name, open_fout, open_all,
  with_output, copy_to, open_and_copy, run, fconc2,
}
use cslab_os.Exer1.Fconc.Program.Output.{
  after, output_id, open_fout-allowed, open_fout-refused, get_ino-file, fconc2-run,
}

same_name-eq : (a b : Name) → same_name a b ≡ true → a ≡ b
same_name-eq [] [] e = refl
same_name-eq [] (d ∷ b) e = absurd (ground (arith, e))
same_name-eq (c ∷ a) [] e = absurd (ground (arith, e))
same_name-eq (c ∷ a) (d ∷ b) e =
    let same : c ≡ d = ground (arith, e) in
    let rest : same_name a b ≡ true = ground (arith, e) in
    ap₂ (λ x xs. x ∷ xs) same (same_name-eq a b rest)

module _ (files : Files) (fs : Fs) (out : Name) (id : FileId)
    (other : same_id id (output_id files fs out) ≡ false) where
  with_output-keeps :
      (fs' : Fs) (r : Outcome (Unit {0}))
      → fs'.contents id ≡ fs.contents id
      → (after fs (with_output (output_id files fs out) fs' r)).contents id ≡ fs.contents id
  with_output-keeps fs' (done u w) same = rw other same
  with_output-keeps fs' (died w) same = rw other same
  with_output-keeps fs' out_of_fuel same = same

  copy_to-keeps :
      (inputs : List FileId)
      → (after fs (copy_to files fs inputs (open_fout files fs out))).contents id ≡ fs.contents id
  copy_to-keeps inputs = elim (Bool-cases (files.can_write out)) [
    | inr refused ↦ rw (open_fout-refused files fs out refused) refl
    | inl allowed ↦
        let (fs', opened, emptied) = open_fout-allowed files fs out allowed in
        rw opened (with_output-keeps fs' _ (ap (λ contents. contents id) emptied ∙ rw other refl))
  ]

  open_and_copy-keeps :
      (inputs : Option (List FileId))
      → (after fs (open_and_copy files fs out inputs)).contents id ≡ fs.contents id
  open_and_copy-keeps none = refl
  open_and_copy-keeps (some inputs) = copy_to-keeps inputs

check_all-member :
    (files : Files) (fs : Fs) (names : List Name) (out name : Name)
    → any (same_name name) names ≡ true
    → check_all files fs names out ≡ true
    → check_if_same (get_ino files fs name) (get_ino files fs out) ≡ true
unfolding check_all
check_all-member files fs [] out name member passed = absurd (ground (arith, member))
check_all-member files fs (first ∷ names) out name member passed =
    elim (Bool-cases (same_name name first)) [
      | inl here ↦
          let e = same_name-eq name first here in
          ap (λ n. check_if_same (get_ino files fs n) (get_ino files fs out)) e
          ∙ ground (arith, passed)
      | inr other ↦
          check_all-member files fs names out name (ground (arith, member, other))
            (ground (arith, passed))
    ]

-- A file that passed the check against the output is another one.
check_if_same-other :
    (files : Files) (fs : Fs) (out : Name) (dev ino : ℕ)
    → ino ≢ 0
    → same_id (dev, ino) (files.fresh out) ≡ false
    → files.can_stat out ≡ true
    → check_if_same ino (get_ino files fs out) ≡ true
    → same_id (dev, ino) (output_id files fs out) ≡ false
unfolding check_if_same get_ino output_id
check_if_same-other files fs out dev ino real new known passed =
    elim (Option-cases (fs.lookup out)) [
      | inl absent ↦ rw (absent, output_id) new
      | inr ((dev', ino'), e) ↦
          let passed' : check_if_same ino ino' ≡ true =
            ap (check_if_same ino) (sym (get_ino-file files fs out dev' ino' known e)) ∙ passed in
          rw (e, output_id) (ground (arith, passed', real))
    ]

-- Whatever other calls fail, and however the run ends: a file that is an input, has an inode number other
-- than 0 and is not the file that `open` makes for a new output is left as it was, also when it is the
-- output, provided that `stat` succeeds on the input and on an output that is there.
run-keeps :
    (files : Files) (fs : Fs) (names : List Name) (out name : Name) (dev ino : ℕ)
    → any (same_name name) names ≡ true
    → fs.lookup name ≡ some (dev, ino)
    → ino ≢ 0
    → same_id (dev, ino) (files.fresh out) ≡ false
    → files.can_stat name ≡ true
    → files.can_stat out ≡ true
    → (after fs (run files fs names out)).contents (dev, ino) ≡ fs.contents (dev, ino)
unfolding run
run-keeps files fs names out name dev ino member found real new known known_out =
    elim (Bool-cases (check_all files fs names out)) [
      | inr refused ↦ rw refused refl
      | inl passed ↦
          let checked : check_if_same ino (get_ino files fs out) ≡ true =
            ap (λ n. check_if_same n (get_ino files fs out))
              (sym (get_ino-file files fs name dev ino known found))
            ∙ check_all-member files fs names out name member passed in
          rw passed (
            open_and_copy-keeps files fs out (dev, ino)
              (check_if_same-other files fs out dev ino real new known_out checked)
              (open_all files fs names))
    ]

-- When `stat` succeeds on an input and on the output's name, if there is such a file: whatever other calls
-- fail, and however a run of fconc2 on one or more inputs and an output ends, the file of that input is
-- left as it was, also when it is the output. It is to have an inode number other than 0 and not to be
-- the file that `open` makes for a new output.
pub fconc2-keeps :
    (files : Files) (fs : Fs) (a : Name) (names : List Name) (out name : Name) (dev ino : ℕ)
    → any (same_name name) (a ∷ names) ≡ true
    → fs.lookup name ≡ some (dev, ino)
    → ino ≢ 0
    → same_id (dev, ino) (files.fresh out) ≡ false
    → files.can_stat name ≡ true
    → files.can_stat out ≡ true
    → (after fs (fconc2 files fs (a ∷ (names ++ out ∷ [])))).contents (dev, ino)
      ≡ fs.contents (dev, ino)
fconc2-keeps files fs a names out name dev ino member found real new known known_out =
    ap (λ e. (after fs e).contents (dev, ino)) (fconc2-run files fs a names out)
    ∙ (elim (Bool-cases files.memory) [
      | inl memory ↦
          ap
            (λ (b : Bool).
              (after fs (if b then run files fs (a ∷ names) out else dies fs)).contents (dev, ino))
            memory
          ∙ run-keeps files fs (a ∷ names) out name dev ino member found real new known known_out
      | inr none_left ↦
          ap
            (λ (b : Bool).
              (after fs (if b then run files fs (a ∷ names) out else dies fs)).contents (dev, ino))
            none_left
    ])
