-- ===== src/Exer4/Sched/Good.antt =====
-- The handlers of exer4/sched/scheduler.c never follow NULL, whatever the children do.
use cslab_os.Base.{
  ℕ, ◌≤◌, ◌<◌, ◌≡◌, refl, true, Bool, List, [], ◌∷◌, ◌++◌, arith, count, false, ◌⊎◌, length, ◌==◌,
  any, inr, count-erase_first-le, if◌then◌else◌, Bool-cases, rotate, inl, count-erase_first_self,
  length-append, count-rotate,
}
use cslab_os.Base.Int.{pos, negsuc}
use cslab_os.ProcCommon.{Status, exited_with, killed_by, stopped_by, continued}
use cslab_os.Exer4.Os.{Os, World, Call, End, Wait, child, failed, exit_with, sigcont, sigstop}
use cslab_os.Exer4.Plist.Memory.{Proc}
use cslab_os.Exer4.Plist.Ops.{has_pid}
use cslab_os.Exer4.Safe.{
  Never, IsSafe, goes_on, leaves, checked_kill-IsSafe, checked_kill-IsSafe_last, IsSafe-then,
  IsSafe-mono, IsSafe-ends, IsSafe-Never,
}
use cslab_os.Exer4.Sched.Defs.{
  Vars, head_pid, start_next_process, after_death, on_death, on_stopped, on_continued, on_status,
  sigchld_handler, start_next_process, on_continued, on_stopped, after_death, sigchld_handler,
  on_status, on_death, head_pid,
}

-- Some process is left, and no two have one pid.
pub record IsGood (w : World Vars) : Type 0 where
  pub some_proc : 0 < length w.vars.procs
  pub pids : (p : ℕ) → count (has_pid p) w.vars.procs ≤ 1

abbrev pub with_procs : List Proc → ℕ → List Call → World Vars
with_procs procs n log = record { vars = record { procs = procs; next_id = n }; log = log }

-- Regular end: status 0, and no task left.
abbrev pub NoTasks : End → World Vars → Type 0
NoTasks e w = (e ≡ exit_with (pos 0)) × (w.vars.procs ≡ [])

abbrev pub is_failed : Wait → Bool
is_failed failed = true
is_failed (child p st) = false

-- The ends of the SIGCHLD handler: no task left, or an error of `waitpid`.
abbrev pub ChildrenEnd : List Wait → End → World Vars → Type 0
ChildrenEnd ws e w = NoTasks e w ⊎ ((e ≡ exit_with (negsuc 0)) × (any is_failed ws ≡ true))

abbrev pub is_head : ℕ → List Proc → Bool
is_head p [] = false
is_head p (v ∷ vs) = p == v.pid

module _ (os : Os) where
  pub start_next_process-kept :
      (w : World Vars)
      → 0 < length w.vars.procs
      → IsSafe os Never (λ _ w'. w'.vars ≡ w.vars) (start_next_process os w)
  unfolding start_next_process head_pid
  start_next_process-kept w some_proc = go w.vars.procs w.vars.next_id w.log some_proc
    where
      go :
          (procs : List Proc) (n : ℕ) (log : List Call)
          → 0 < length procs
          → IsSafe os Never
              (λ _ w'. w'.vars ≡ record { procs = procs; next_id = n })
              (start_next_process os (with_procs procs n log))
      go [] n log h = absurd (omega arith)
      go (v ∷ vs) n log h = checked_kill-IsSafe os _ v.pid sigcont _ (goes_on refl)

  after_death-kept :
      (current p : ℕ) (procs : List Proc) (n : ℕ) (log : List Call)
      → IsSafe os NoTasks
          (λ _ w'. (w'.vars ≡ record { procs = procs; next_id = n }) × (0 < length procs))
          (after_death os current p (with_procs procs n log))
  unfolding after_death
  after_death-kept current p [] n log = leaves (refl, refl)
  after_death-kept current p (v ∷ vs) n log = elim (Bool-cases (current == p)) [
    | inl mine ↦ rw mine (
        IsSafe-mono
          (IsSafe-Never (start_next_process-kept (with_procs (v ∷ vs) n log) (omega arith)))
          λ _ w' e. (e, omega arith))
    | inr stray ↦ rw stray (goes_on (refl, omega arith))
  ]

  IsGood-part :
      {w w' : World Vars}
      → IsGood w
      → ((p : ℕ) → count (has_pid p) w'.vars.procs ≤ count (has_pid p) w.vars.procs)
      → 0 < length w'.vars.procs
      → IsGood w'
  IsGood-part good fewer some_proc = record {
    some_proc = some_proc;
    pids = λ p. omega (arith, good.pids p, fewer p);
  }

  -- With unique pids and some process: a death takes the pid out of the list, and leaves unique pids
  -- and some process. The program ends only with status 0 when no task is left, or where the system
  -- refuses a signal; NULL is not followed.
  pub on_death-IsGood :
      (p : ℕ) (w : World Vars)
      → IsGood w
      → IsSafe os NoTasks
          (λ _ w'. IsGood w' × (count (has_pid p) w'.vars.procs ≡ 0))
          (on_death os p w)
  unfolding on_death head_pid
  on_death-IsGood p w good = go w.vars.procs w.vars.next_id w.log good
    where
      go :
          (procs : List Proc) (n : ℕ) (log : List Call)
          → IsGood (with_procs procs n log)
          → IsSafe os NoTasks
              (λ _ w'. IsGood w' × (count (has_pid p) w'.vars.procs ≡ 0))
              (on_death os p (with_procs procs n log))
      go [] n log good = absurd (omega (arith, good.some_proc))
      go (v ∷ vs) n log good = IsSafe-mono (after_death-kept v.pid p _ _ _) λ _ w' (e, some_proc). (
        IsGood-part good (λ q. rw e (count-erase_first-le (has_pid p) (has_pid q) (v ∷ vs)))
            (rw e some_proc),
        rw e (omega (arith, good.pids p, count-erase_first_self (has_pid p) (v ∷ vs))),
      )

  -- With unique pids and some process: a stop of the process at the head moves it to the end of the
  -- list; any other stop leaves the list as it is. The program may exit only where the system
  -- refuses a signal; NULL is not followed.
  pub on_stopped-IsGood :
      (p : ℕ) (w : World Vars)
      → IsGood w
      → IsSafe os Never
          (λ _ w'.
            IsGood w'
            × (w'.vars.procs
                ≡ (if is_head p w.vars.procs then rotate w.vars.procs else w.vars.procs)))
          (on_stopped os p w)
  unfolding on_stopped head_pid
  on_stopped-IsGood p w good = go w.vars.procs w.vars.next_id w.log good
    where
      go :
          (procs : List Proc) (n : ℕ) (log : List Call)
          → IsGood (with_procs procs n log)
          → IsSafe os Never
              (λ _ w'.
                IsGood w' × (w'.vars.procs ≡ (if is_head p procs then rotate procs else procs)))
              (on_stopped os p (with_procs procs n log))
      go [] n log good = absurd (omega (arith, good.some_proc))
      go (v ∷ vs) n log good = elim (Bool-cases (p == v.pid)) [
        | inl mine ↦
            let long : 0 < length (vs ++ v ∷ []) = omega (arith, length-append vs (v ∷ [])) in
            rw mine (
              IsSafe-mono (start_next_process-kept (with_procs (vs ++ v ∷ []) n log) long) λ _ w' e.
                (
                  IsGood-part good (λ q. rw e (omega (arith, count-rotate (has_pid q) (v ∷ vs))))
                      (rw e long),
                  rw e refl,
                ))
        | inr stray ↦ rw stray (goes_on (good, refl))
      ]

  on_continued-Good :
      (p : ℕ) (w : World Vars)
      → IsGood w
      → IsSafe os Never (λ _ w'. IsGood w') (on_continued os p w)
  unfolding on_continued head_pid
  on_continued-Good p w good = go w.vars.procs w.vars.next_id w.log good
    where
      go :
          (procs : List Proc) (n : ℕ) (log : List Call)
          → IsGood (with_procs procs n log)
          → IsSafe os Never (λ _ w'. IsGood w') (on_continued os p (with_procs procs n log))
      go [] n log good = absurd (omega (arith, good.some_proc))
      go (v ∷ vs) n log good = elim (Bool-cases (v.pid == p)) [
        | inl mine ↦ rw mine (goes_on good)
        | inr stray ↦ rw stray (
            checked_kill-IsSafe_last os _ p sigstop
              (record { some_proc = good.some_proc; pids = good.pids }))
      ]

  on_status-Good :
      (p : ℕ) (st : Status) (w : World Vars)
      → IsGood w
      → IsSafe os NoTasks (λ _ w'. IsGood w') (on_status os p st w)
  unfolding on_status
  on_status-Good p continued w good =
      IsSafe-mono (IsSafe-Never (on_continued-Good p w good)) λ _ w' g. g
  on_status-Good p (exited_with code) w good = IsSafe-mono (on_death-IsGood p w good) λ _ w' r. r.0
  on_status-Good p (killed_by sig) w good = IsSafe-mono (on_death-IsGood p w good) λ _ w' r. r.0
  on_status-Good p (stopped_by sig) w good =
      IsSafe-mono (IsSafe-Never (on_stopped-IsGood p w good)) λ _ w' r. r.0

  -- With unique pids and some process, whatever `waitpid` reports, the SIGCHLD handler does not follow
  -- NULL, and returns with unique pids and some process. Otherwise the program exits: with status 0
  -- and no task left, with status -1 after `waitpid` failed, or where the system refuses a signal.
  pub sigchld_handler-IsGood :
      (ws : List Wait) (w : World Vars)
      → IsGood w
      → IsSafe os (ChildrenEnd ws) (λ _ w'. IsGood w') (sigchld_handler os ws w)
  unfolding sigchld_handler
  sigchld_handler-IsGood [] w good = goes_on good
  sigchld_handler-IsGood (failed ∷ ws) w good = leaves (inr (refl, refl))
  sigchld_handler-IsGood (child p st ∷ ws) w good =
      IsSafe-then (IsSafe-ends (on_status-Good p st w good) λ e v x. inl x)
        λ _ w' good'. sigchld_handler-IsGood ws w' good'
