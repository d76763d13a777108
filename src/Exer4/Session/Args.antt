-- ===== src/Exer4/Session/Args.antt =====
-- How the scheduler passes the descriptors of the pipes to the shell: the arguments that `do_shell` of
-- exer4/prio/scheduler-shell.c writes, and `main` of exer4/prio/shell.c reads.
use cslab_os.Base.{
  ℕ, zero, suc, ◌-◌, ◌^◌, ◌<◌, ◌≡◌, refl, ap, ◌∙◌, false, Option, none, some, List, [], ◌∷◌, ◌++◌,
  length, length-append, arith, ◌||◌, if◌then◌else◌,
}
use cslab_os.Base.Int.{ℤ, pos, beq}
use cslab_os.Text.{atoi, signed_value, digits_value}
use cslab_os.Text.Decimal.{decimal, atoi-decimal, digits_value-decimal, length-decimal}

abbrev pub zeros : ℕ → List ℕ
zeros zero = []
zeros (suc n) = 48 ∷ zeros n

-- sprintf(arg, "%05d", fd)
unfoldable pub fd_arg : ℕ → List ℕ
fd_arg fd = zeros (5 - length (decimal fd)) ++ decimal fd

-- `char arg1[10]`
abbrev pub arg_size : ℕ
arg_size = 10

-- `newargv`, after the name.
unfoldable pub do_shell : ℕ → ℕ → List (List ℕ)
do_shell wfd rfd = fd_arg wfd ∷ fd_arg rfd ∷ []

-- The descriptors, or none for `exit(1)`.
abbrev pub descriptors : ℤ → ℤ → Option (ℤ × ℤ)
descriptors wfd rfd = if beq wfd (pos 0) || beq rfd (pos 0) then none else some (wfd, rfd)

unfoldable pub shell_main : List (List ℕ) → Option (ℤ × ℤ)
shell_main [] = none
shell_main (a ∷ []) = none
shell_main (a ∷ b ∷ []) = descriptors (atoi a) (atoi b)
shell_main (a ∷ b ∷ c ∷ more) = none

-- Leading zeros do not change a number.
digits_value-zeros : (n : ℕ) (cs : List ℕ) → digits_value 0 (zeros n ++ cs) ≡ digits_value 0 cs
unfolding digits_value
digits_value-zeros zero cs = refl
digits_value-zeros (suc n) cs = digits_value-zeros n cs

length-zeros : (n : ℕ) → length (zeros n) ≡ n
length-zeros zero = refl
length-zeros (suc n) = ap suc (length-zeros n)

atoi-zeros : (n k : ℕ) → n < 2 ^ 32 → atoi (zeros k ++ decimal n) ≡ pos n
unfolding atoi signed_value digits_value
atoi-zeros n zero small = atoi-decimal n small
atoi-zeros n (suc k) small =
    ap pos (digits_value-zeros k (decimal n) ∙ digits_value-decimal n small)

atoi-fd_arg : (fd : ℕ) → fd < 10 ^ 9 → atoi (fd_arg fd) ≡ pos fd
unfolding fd_arg
atoi-fd_arg fd small = atoi-zeros fd (5 - length (decimal fd)) (omega arith)

length-fd_arg : (fd : ℕ) → fd < 10 ^ 9 → length (fd_arg fd) < arg_size
unfolding fd_arg
length-fd_arg fd small = omega (
  arith,
  length-append (zeros (5 - length (decimal fd))) (decimal fd),
  length-zeros (5 - length (decimal fd)),
  length-decimal 8 fd small,
)

beq-pos : (n : ℕ) → 0 < n → beq (pos n) (pos 0) ≡ false
beq-pos n more = ground arith

-- Each descriptor between 1 and 10 ^ 9 - 1 fits into its buffer with the final zero, and the shell reads
-- back both descriptors that the scheduler has written.
pub shell_main-do_shell :
    (wfd rfd : ℕ)
    → 0 < wfd
    → wfd < 10 ^ 9
    → 0 < rfd
    → rfd < 10 ^ 9
    → (shell_main (do_shell wfd rfd) ≡ some (pos wfd, pos rfd))
      × (length (fd_arg wfd) < arg_size)
      × (length (fd_arg rfd) < arg_size)
unfolding shell_main do_shell
shell_main-do_shell wfd rfd w w' r r' = (
  rw (atoi-fd_arg wfd w', atoi-fd_arg rfd r', beq-pos wfd w, beq-pos rfd r) refl,
  length-fd_arg wfd w',
  length-fd_arg rfd r',
)
