-- ===== src/Text/Lines.antt =====
-- `fgets` on a line that a newline ends.
use cslab_os.Base.{
  ℕ, zero, suc, ◌<◌, ◌≡◌, refl, ◌==◌, ◌||◌, Bool, false, List, [], ◌∷◌, ◌++◌, arith, length, any,
}
use cslab_os.Text.{c_string, fgets}

-- The characters that end a line or a string.
abbrev pub is_end : ℕ → Bool
is_end c = (c == 0) || (c == 10)

pub fgets-line :
    (k : ℕ) (line stream : List ℕ)
    → any is_end line ≡ false
    → length line < k
    → fgets k (line ++ 10 ∷ stream) ≡ (line ++ 10 ∷ [], stream)
unfolding fgets
fgets-line zero line stream text short = absurd (omega arith)
fgets-line (suc k) [] stream text short = refl
fgets-line (suc k) (c ∷ line) stream text short =
    let e = fgets-line k line stream (ground arith) (omega arith) in
    let inside : (c == 10) ≡ false = ground arith in rw (inside, e) refl

pub c_string-line :
    (line : List ℕ) → any is_end line ≡ false → c_string (line ++ 10 ∷ []) ≡ line ++ 10 ∷ []
unfolding c_string
c_string-line [] text = refl
c_string-line (c ∷ line) text =
    let inside : (c == 0) ≡ false = ground arith in
    rw (inside, c_string-line line (ground arith)) refl
