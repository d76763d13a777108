-- ===== src/Exer4/Cmdline/Reading.antt =====
-- `get_cmdline` reads a line.
use cslab_os.Base.{ℕ, ◌+◌, ◌-◌, ◌<◌, ◌≡◌, refl, false, List, [], ◌∷◌, ◌++◌, arith, length, any}
use cslab_os.Text.{c_string}
use cslab_os.Text.Lines.{is_end, fgets-line, c_string-line}
use cslab_os.Exer4.Cmdline.Defs.{strip_newline, cmdline, get_cmdline}

strip_newline-line : (line : List ℕ) → strip_newline (line ++ 10 ∷ []) ≡ line
unfolding strip_newline
strip_newline-line [] = refl
strip_newline-line (c ∷ []) = refl
strip_newline-line (c ∷ d ∷ line) = rw (strip_newline-line (d ∷ line)) refl

-- A line without NUL or newline, of fewer than `bufsz - 1` characters, that a newline ends is read as
-- it stands, without the newline, and the rest of the input is left.
pub get_cmdline-line :
    (bufsz : ℕ) (line stream : List ℕ)
    → any is_end line ≡ false
    → length line + 1 < bufsz
    → get_cmdline bufsz (line ++ 10 ∷ stream) ≡ cmdline line stream
unfolding get_cmdline c_string strip_newline
get_cmdline-line bufsz [] stream text short =
    rw (fgets-line (bufsz - 1) [] stream text (omega arith)) refl
get_cmdline-line bufsz (c ∷ line) stream text short =
    let e = fgets-line (bufsz - 1) (c ∷ line) stream text (omega arith) in
    let e' = c_string-line (c ∷ line) text in
    let e'' = strip_newline-line (c ∷ line) in rw (e, e', e'') refl
