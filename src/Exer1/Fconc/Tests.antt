-- ===== src/Exer1/Fconc/Tests.antt =====
-- Two files copied by a system that moves one byte at a time.
use cslab_os.Base.{ℕ, zero, suc, ◌≡◌, refl, Option, some, arith, [], ◌∷◌}
use cslab_os.Exer1.Fconc.Defs.{Sys, World, cat_contents}
use cslab_os.Exer1.Fconc.Partial.{IsBounded, IsCopy, cat_contents-IsCopy}

abbrev byte_wise : ℕ → ℕ → Option ℕ
byte_wise c zero = some 0
byte_wise c (suc n) = some 1

abbrev sys : Sys
sys = record { write = byte_wise; read = byte_wise }

abbrev empty : World
empty = record { calls = 0; out = [] }

byte_wise-IsBounded : IsBounded byte_wise
byte_wise-IsBounded c zero k e = ground arith
byte_wise-IsBounded c (suc n) k e = ground arith

byte_wise-stops : (c n : ℕ) → byte_wise c n ≡ some 0 → n ≡ 0
byte_wise-stops c zero e = refl
byte_wise-stops c (suc n) e = ground arith

cat_contents-IsCopy_example : IsCopy [] (1 ∷ 2 ∷ []) (cat_contents sys 3 (1 ∷ 2 ∷ []) empty)
cat_contents-IsCopy_example =
    cat_contents-IsCopy sys byte_wise-IsBounded byte_wise-IsBounded byte_wise-stops 3 (1 ∷ 2 ∷ [])
      empty (omega arith)
