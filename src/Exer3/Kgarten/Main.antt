-- ===== src/Exer3/Kgarten/Main.antt =====
-- exer3/kgarten/kgarten.c: `main`, from its arguments to the threads that it creates, where
-- `malloc` and the calls of the pthread library succeed.
use cslab_os.Base.{
  ℕ, zero, suc, ◌-◌, ◌%◌, ◌^◌, ◌<◌, ◌≤◌, ◌≡◌, refl, ltb, Bool, true, false, not, Option, none, some,
  List, [], ◌∷◌, if◌then◌else◌, arith, count, length, ap,
}
use cslab_os.Base.Int.{ℤ, pos, wrap, to_int}
use cslab_os.Text.Decimal.{decimal}
use cslab_os.Text.Strtol.{strtol, strtol-decimal}
use cslab_os.Exer3.Kgarten.Signals.{State, start}

-- Whether something was read, and nothing is left.
abbrev pub whole : Option (ℤ × List ℕ) → Option ℤ
whole none = none
whole (some (l, [])) = some (to_int l)
whole (some (l, c ∷ cs)) = none

unfoldable pub safe_atoi : List ℕ → Option ℤ
safe_atoi s = whole (strtol s)

-- `is_child` of the threads from `i` on.
unfoldable pub child_flags : ℕ → ℕ → ℕ → List Bool
child_flags chldcnt i zero = []
child_flags chldcnt i (suc left) = ltb i chldcnt ∷ child_flags chldcnt (suc i) left

-- The checks on the three numbers, and the threads; none stands for `exit(1)`.
unfoldable pub checked : Option ℤ → Option ℤ → Option ℤ → Option State
checked (some (pos thrcnt)) (some (pos chldcnt)) (some (pos ratio)) =
    if ltb 0 thrcnt
    then if ltb thrcnt chldcnt
      then none
      else if ltb 0 ratio
      then some (start ratio (child_flags chldcnt 0 thrcnt))
      else none
    else none
checked _ _ _ = none

unfoldable pub main : List (List ℕ) → Option State
main (thread_count ∷ child_threads ∷ c_t_ratio ∷ []) =
    checked (safe_atoi thread_count) (safe_atoi child_threads) (safe_atoi c_t_ratio)
main _ = none

safe_atoi-decimal : (n : ℕ) → n < 2 ^ 31 → safe_atoi (decimal n) ≡ some (pos n)
unfolding safe_atoi to_int wrap
safe_atoi-decimal n small =
    let below : n % 2 ^ 32 ≡ n = omega (arith, small) in
    let fits : ltb n (2 ^ 31) ≡ true = ground arith in
    rw (strtol-decimal n (omega (arith, small)), below, fits) refl

count-child_flags :
    (chldcnt i left : ℕ) → count not (child_flags chldcnt i left) ≡ left - (chldcnt - i)
unfolding child_flags
count-child_flags chldcnt i zero = omega arith
count-child_flags chldcnt i (suc left) = ground (arith, count-child_flags chldcnt (suc i) left)

length-child_flags : (chldcnt i left : ℕ) → length (child_flags chldcnt i left) ≡ left
unfolding child_flags
length-child_flags chldcnt i zero = refl
length-child_flags chldcnt i (suc left) = ap suc (length-child_flags chldcnt (suc i) left)

-- For three decimal numbers below 2 ^ 31, of which the first and the last are not 0 and the second is at
-- most the first, `main` creates as many threads as the first says, where all but as many as the second
-- says are teachers, with the last as the ratio.
pub main-decimal :
    (thrcnt chldcnt ratio : ℕ)
    → thrcnt < 2 ^ 31
    → ratio < 2 ^ 31
    → 0 < thrcnt
    → chldcnt ≤ thrcnt
    → 0 < ratio
    → (children : List Bool) × (main (decimal thrcnt ∷ decimal chldcnt ∷ decimal ratio ∷ [])
        ≡ some (start ratio children))
      × (length children ≡ thrcnt)
      × (count not children ≡ thrcnt - chldcnt)
unfolding main checked
main-decimal thrcnt chldcnt ratio small small' some_thread within strict =
    let some_left : ltb 0 thrcnt ≡ true = ground arith in
    let enough : ltb thrcnt chldcnt ≡ false = ground arith in
    let positive : ltb 0 ratio ≡ true = ground arith in
    (
      child_flags chldcnt 0 thrcnt,
      rw
          (
            safe_atoi-decimal thrcnt small,
            safe_atoi-decimal chldcnt (omega (arith, small, within)),
            safe_atoi-decimal ratio small',
            some_left,
            enough,
            positive,
          )
          refl,
      length-child_flags chldcnt 0 thrcnt,
      omega (arith, count-child_flags chldcnt 0 thrcnt),
    )

passes-all :
    (first second third : Bool) {s t : State}
    → (if first then if second then none else if third then some t else none else none) ≡ some s
    → (first ≡ true) × (third ≡ true) × (s ≡ t)
passes-all true false true e = (refl, refl, cc)
passes-all true false false e = absurd cc
passes-all true true third e = absurd cc
passes-all false second third e = absurd cc

checked-start :
    (thrcnt chldcnt ratio : Option ℤ) {s : State}
    → checked thrcnt chldcnt ratio ≡ some s
    → (r : ℕ) × (children : List Bool) × (s ≡ start r children) × (0 < r) × (0 < length children)
unfolding checked
checked-start (some (pos thrcnt)) (some (pos chldcnt)) (some (pos ratio)) e =
    let (some_thread, strict, same) =
      passes-all (ltb 0 thrcnt) (ltb thrcnt chldcnt) (ltb 0 ratio) e in
    (
      ratio,
      child_flags chldcnt 0 thrcnt,
      same,
      ground (arith, strict),
      ground (arith, some_thread, length-child_flags chldcnt 0 thrcnt),
    )
checked-start _ _ _ e = absurd cc

-- Whatever the arguments are: `main` ends at once with an error, or it starts at least one thread, with a
-- ratio of at least 1.
pub main-start :
    (args : List (List ℕ)) {s : State}
    → main args ≡ some s
    → (r : ℕ) × (children : List Bool) × (s ≡ start r children) × (0 < r) × (0 < length children)
unfolding main
main-start (a ∷ b ∷ c ∷ []) e = checked-start (safe_atoi a) (safe_atoi b) (safe_atoi c) e
main-start _ e = absurd cc
