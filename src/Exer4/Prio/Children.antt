-- ===== src/Exer4/Prio/Children.antt =====
-- The signal handlers: what they do when a child stops, continues or dies, and when time is up.
use cslab_os.Base.{
  ℕ, ◌≡◌, ◌≢◌, refl, true, false, Bool, List, [], ◌∷◌, arith, Option-cases, inl, inr, ◌==◌,
  Bool-cases, erase_first, count-erase_first-le, count-erase_first-eq, count-erase_first_self, ◌⊎◌,
  any,
}
use cslab_os.Base.Int.{pos, negsuc}
use cslab_os.ProcCommon.{Status, exited_with, killed_by, stopped_by, continued}
use cslab_os.Exer4.Plist.Memory.{Proc}
use cslab_os.Exer4.Plist.Ops.{has_pid}
use cslab_os.Exer4.Os.{
  Os, World, kill, alarm, sigstop, then_run, Wait, child, failed, End, exit_with,
}
use cslab_os.Exer4.Safe.{
  Never, IsSafe, goes_on, leaves, checked_kill-IsSafe, IsSafe-then, IsSafe-mono,
  checked_kill-IsSafe_last, IsSafe-ends, IsSafe-Never,
}
use cslab_os.Exer4.Prio.Defs.{
  Vars, head_pid, tq_sec, turn, advance, on_continued, on_death, on_stopped, on_status,
  sigchld_handler, sigalrm_handler,
}
use cslab_os.Exer4.Prio.Invariant.{IsGood, total}
use cslab_os.Exer4.Prio.Started.{
  IsTurned, turn-IsTurned, head_pid-none, IsSound-le, total-turn, next_id-turn,
  start_next_process-Good,
}
use cslab_os.Exer4.Prio.Dispatch.{head_pid-some}

-- The regular end: status 0, and no task left.
abbrev pub NoTasks : End → World Vars → Type 0
NoTasks e w = (e ≡ exit_with (pos 0)) × (w.vars.high_procs ≡ []) × (w.vars.low_procs ≡ [])

abbrev pub is_failed : Wait → Bool
is_failed failed = true
is_failed (child p st) = false

-- The ends of the SIGCHLD handler: no task left, or an error of `waitpid`.
abbrev pub ChildrenEnd : List Wait → End → World Vars → Type 0
ChildrenEnd ws e w = NoTasks e w ⊎ ((e ≡ exit_with (negsuc 0)) × (any is_failed ws ≡ true))

module _ (os : Os) where
  pub on_continued-Good :
      (p : ℕ) (w : World Vars)
      → IsGood w
      → IsSafe os Never (λ _ w'. IsGood w' × (w'.vars ≡ w.vars)) (on_continued os p w)
  unfolding on_continued
  on_continued-Good p w good = elim (Bool-cases (w.vars.current_pid == p)) [
    | inl mine ↦ rw mine (goes_on (good, refl))
    | inr stray ↦ rw stray (checked_kill-IsSafe_last os w p sigstop (good, refl))
  ]

  -- On sound tables with the current process among the tasks: a stop of the current process turns
  -- the list that is served (the high one unless it is empty) by one, makes the head of the served
  -- list current, sends it SIGCONT and sets the alarm; the stop of any other process changes
  -- nothing. Tables and current process are good again, no assertion fails and no NULL is followed.
  -- The program may exit only where the system refuses the signal.
  pub on_stopped-Good :
      (p : ℕ) (w : World Vars)
      → IsGood w
      → IsSafe os Never
          (λ _ w'.
            IsGood w'
            × (w.vars.current_pid ≡ p → IsTurned w w')
            × (w.vars.current_pid ≢ p → w' ≡ w))
          (on_stopped os p w)
  unfolding on_stopped advance
  on_stopped-Good p w good = elim (Bool-cases (w.vars.current_pid == p)) [
    | inl mine ↦
        let s = w.vars in
        let (_, e) = head_pid-some s.high_procs s.low_procs (has_pid s.current_pid) good.1 in
        let (q, e') =
          head_pid-some (turn s).high_procs (turn s).low_procs (has_pid s.current_pid)
            (omega (arith, good.1, total-turn (has_pid s.current_pid) s)) in
        rw (mine, e, then_run)
          (IsSafe-mono
            (start_next_process-Good os (record w { vars = turn s }) q e'
              (IsSound-le s (turn s) good.0 (λ t. omega (arith, total-turn t s)) (next_id-turn s)))
            λ _ w' (st, good'). (good', (λ _. turn-IsTurned w w' st), λ ne. ground arith))
    | inr stray ↦ rw stray (goes_on (good, (λ e. ground arith), λ _. refl))
  ]

  -- On sound tables with the current process among the tasks, a death takes the pid out of both
  -- lists and leaves sound tables with a current process among them. The program ends only with
  -- status 0 when no task is left, or where the system refuses a signal; no assertion fails and no
  -- NULL is followed.
  pub on_death-Good :
      (p : ℕ) (w : World Vars)
      → IsGood w
      → IsSafe os NoTasks (λ _ w'. IsGood w' × (total (has_pid p) w'.vars ≡ 0)) (on_death os p w)
  unfolding on_death
  on_death-Good p w good =
      let s = w.vars in
      let high = erase_first (has_pid p) s.high_procs in
      let low = erase_first (has_pid p) s.low_procs in
      let left : Vars = record s { high_procs = high; low_procs = low } in
      let sound =
        IsSound-le s left good.0
          (λ t. omega (
            arith,
            count-erase_first-le (has_pid p) t s.high_procs,
            count-erase_first-le (has_pid p) t s.low_procs,
          ))
          refl in
      let gone : total (has_pid p) left ≡ 0 = omega (
        arith,
        good.0.pids p,
        count-erase_first_self (has_pid p) s.high_procs,
        count-erase_first_self (has_pid p) s.low_procs,
      ) in
      elim (Option-cases (head_pid high low)) [
        | inl all_dead ↦
            rw (all_dead, on_death)
              (let (no_high, no_low) = head_pid-none high low all_dead in
                leaves (refl, no_high, no_low))
        | inr (q, e) ↦ elim (Bool-cases (s.current_pid == p)) [
          | inl mine ↦
              rw (e, on_death, mine)
                (IsSafe-mono (IsSafe-Never (start_next_process-Good os _ q e sound))
                  λ _ w' (st, good'). (good', rw (st.high, st.low) gone))
          | inr stray ↦
              let stays = λ (vs : List Proc).
                count-erase_first-eq (has_pid p) (has_pid s.current_pid) vs (λ v h. ground arith) in
              rw (e, on_death, stray)
                (goes_on
                  ((sound, omega (arith, good.1, stays s.high_procs, stays s.low_procs)), gone))
        ]
      ]

  on_status-Good :
      (p : ℕ) (st : Status) (w : World Vars)
      → IsGood w
      → IsSafe os NoTasks (λ _ w'. IsGood w') (on_status os p st w)
  unfolding on_status
  on_status-Good p continued w good =
      IsSafe-mono (IsSafe-Never (on_continued-Good p w good)) λ _ w' r. r.0
  on_status-Good p (exited_with code) w good = IsSafe-mono (on_death-Good p w good) λ _ w' r. r.0
  on_status-Good p (killed_by sig) w good = IsSafe-mono (on_death-Good p w good) λ _ w' r. r.0
  on_status-Good p (stopped_by sig) w good =
      IsSafe-mono (IsSafe-Never (on_stopped-Good p w good)) λ _ w' r. r.0

  -- On sound tables with the current process among the tasks, whatever `waitpid` reports, the SIGCHLD
  -- handler fails no assertion and follows no NULL, and returns with sound tables and a current
  -- process among the tasks. Otherwise the program exits: with status 0 and no task left, with
  -- status -1 after `waitpid` failed, or where the system refuses a signal.
  pub sigchld_handler-Good :
      (ws : List Wait) (w : World Vars)
      → IsGood w
      → IsSafe os (ChildrenEnd ws) (λ _ w'. IsGood w') (sigchld_handler os ws w)
  unfolding sigchld_handler
  sigchld_handler-Good [] w good = goes_on good
  sigchld_handler-Good (failed ∷ ws) w good = leaves (inr (refl, refl))
  sigchld_handler-Good (child p st ∷ ws) w good =
      IsSafe-then (IsSafe-ends (on_status-Good p st w good) λ e v x. inl x)
        λ _ w' good'. sigchld_handler-Good ws w' good'

  -- On sound tables with the current process among the tasks, the SIGALRM handler sends the current
  -- process SIGSTOP and sets the alarm anew, and nothing else changes. The program may exit only
  -- where the system refuses the signal.
  pub sigalrm_handler-Good :
      (w : World Vars)
      → IsGood w
      → IsSafe os Never
          (λ _ w'.
            IsGood w'
            × (w'.vars ≡ w.vars)
            × (w'.log ≡ alarm tq_sec ∷ kill w.vars.current_pid sigstop ∷ w.log))
          (sigalrm_handler os w)
  unfolding sigalrm_handler
  sigalrm_handler-Good w good =
      checked_kill-IsSafe os w w.vars.current_pid sigstop _ (goes_on (good, refl, refl))
