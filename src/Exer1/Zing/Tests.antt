-- ===== src/Exer1/Zing/Tests.antt =====
-- The user "al", and a system that writes all at once.
use cslab_os.Base.{
  ℕ, zero, suc, ◌≡◌, ◌<◌, refl, Option, some, none, true, false, [], ◌∷◌, ◌++◌, arith, ◌≤◌,
}
use cslab_os.Exer1.Fconc.Defs.{Sys, done}
use cslab_os.Exer1.Fconc.Copies.{Cooperates}
use cslab_os.Exer1.Zing.{greet, error_text, message, overrun, zing}
use cslab_os.Exer1.Zing.Greets.{zing-greets}

abbrev at_once : ℕ → ℕ → Option ℕ
at_once c n = some n

at_once-Cooperates : Cooperates at_once
at_once-Cooperates = record { nothing = λ c. refl; something = λ c n more. some_bytes c n more }
  where
    some_bytes : (c n : ℕ) → 0 < n → (k : ℕ) × (at_once c n ≡ some (suc k)) × (suc k ≤ n)
    some_bytes c zero more = absurd (omega (arith, more))
    some_bytes c (suc n) more = (n, refl, omega arith)

abbrev whole_writes : Sys
whole_writes = record { write = at_once; read = at_once }

zing-greets_example :
    ((c : ℕ) × (zing whole_writes true 16 (some (97 ∷ 108 ∷ []))
        ≡ (1, done tt (record { calls = c; out = (greet ++ 97 ∷ 108 ∷ []) ++ 10 ∷ [] }))))
    × (overrun (message (97 ∷ 108 ∷ [])) ≡ 1)
    × ((c : ℕ) × (zing whole_writes false 16 (some (97 ∷ 108 ∷ []))
          ≡ (2, done tt (record { calls = c; out = error_text }))))
    × ((c : ℕ) × (zing whole_writes true 16 none
          ≡ (2, done tt (record { calls = c; out = error_text }))))
zing-greets_example =
    zing-greets whole_writes true 16 (97 ∷ 108 ∷ []) at_once-Cooperates (omega arith)
