-- ===== src/Exer3/Mandel/Turns/Rows.antt =====
-- The lines of the picture, and `update`.
use cslab_os.Base.{ℕ, zero, suc, ◌+◌, ◌≡◌, ◌≢◌, ap, List, [], ◌∷◌, ◌++◌, ◌⊎◌, arith}
use cslab_os.Exer3.Mandel.Turns.{width, update}

-- The first columns of a line, and the first lines of the picture.
unfoldable pub row : ℕ → ℕ → List (ℕ × ℕ)
row line zero = []
row line (suc n) = row line n ++ (line, n) ∷ []

unfoldable pub rows : ℕ → List (ℕ × ℕ)
rows zero = []
rows (suc m) = rows m ++ row m width

pub row-next : (line n : ℕ) → row line n ++ (line, n) ∷ [] ≡ row line (n + 1)
unfolding row
row-next line n = let e : suc n ≡ n + 1 = omega arith in ap (row line) e

pub rows-next : (m : ℕ) → rows m ++ row m width ≡ rows (m + 1)
unfolding rows
rows-next m = let e : suc m ≡ m + 1 = omega arith in ap rows e

module _ {A : Type 0} (f : ℕ → A) (i : ℕ) (a : A) where
  pub update-here : update f i a i ≡ a
  unfolding update
  update-here = ground arith

  pub update-other : (j : ℕ) → j ≢ i → update f i a j ≡ f j
  unfolding update
  update-other j other = ground (arith, other)

pub same_or_other : (i j : ℕ) → (i ≡ j) ⊎ (i ≢ j)
same_or_other i j = ground arith
