-- ===== src/Exer4/Sched/Boot.antt =====
-- The start of exer4/sched/scheduler.c: a task for each program of the command line.
use cslab_os.Base.{
  ℕ, suc, ne→==, ◌+◌, ◌≤◌, ◌≡◌, ◌⊎◌, inl, inr, refl, none, some, List, [], ◌∷◌, arith, Option-cases,
  count, length, length-append, count-append,
}
use cslab_os.Base.Int.{pos, negsuc}
use cslab_os.ProcCommon.{Status, Ready, wait_for_ready_children}
use cslab_os.Exer4.Os.{Os, World, End, running, exit_with, wait_forever}
use cslab_os.Exer4.Plist.Memory.{Proc}
use cslab_os.Exer4.Plist.Ops.{has_pid}
use cslab_os.Exer4.Safe.{
  IsSafe, goes_on, leaves, checked_malloc-IsSafe, IsSafe-then, IsSafe-mono, IsSafe-ran,
  IsSafe-Never,
}
use cslab_os.Exer4.Sched.Defs.{Vars, new_task, create_task, create_tasks, on_ready, boot, globals}
use cslab_os.Exer4.Sched.Good.{IsGood, start_next_process-kept}

abbrev pub start : World Vars
start = record { vars = globals; log = [] }

-- No two processes have one pid, and `k` processes are there.
pub record IsFilled (k : ℕ) (w : World Vars) : Type 0 where
  pub size : length w.vars.procs ≡ k
  pub pids : (p : ℕ) → count (has_pid p) w.vars.procs ≤ 1

module _ (os : Os) where
  -- The system gives a new child a pid that no task has.
  abbrev pub FreshChild : World Vars → Type 0
  FreshChild w = (p : ℕ) → os.fork w.log ≡ some p → count (has_pid p) w.vars.procs ≡ 0

  -- Each `fork` of the start gives a fresh pid.
  abbrev pub FreshChildren : List (List ℕ) → World Vars → Type 0
  FreshChildren [] w = Unit
  FreshChildren (name ∷ names) w =
      FreshChild w
      × ((w' : World Vars) → create_task os name w ≡ running tt w' → FreshChildren names w')

  -- Why a start ends: no program or no child, a child that died, or one that never stops.
  abbrev pub BootEnd : List (List ℕ) → Ready → End → World Vars → Type 0
  BootEnd names r e w =
      ((e ≡ exit_with (negsuc 0)) × ((names ≡ []) ⊎ (os.fork w.log ≡ none)))
      ⊎ ((e ≡ exit_with (pos 1)) × (r ≡ Ready.failed))
      ⊎ ((e ≡ wait_forever) × (r ≡ Ready.blocked))

  create_task-IsFilled :
      (all : List (List ℕ)) (r : Ready) (k : ℕ) (name : List ℕ) (w : World Vars)
      → IsFilled k w
      → FreshChild w
      → IsSafe os (BootEnd all r) (λ _ w'. IsFilled (k + 1) w') (create_task os name w)
  unfolding create_task
  create_task-IsFilled all r k name w filled fresh = elim (Option-cases (os.fork w.log)) [
    | inl e ↦ rw (e, create_task) (leaves (inl (refl, inr e)))
    | inr (p, e) ↦
        rw (e, create_task)
          (checked_malloc-IsSafe os _ _ λ bytes.
            let new : Proc = new_task w.vars.next_id p name bytes in
            goes_on (record {
              size = omega (arith, filled.size, length-append w.vars.procs (new ∷ []));
              pids = λ q. ground (
                arith,
                filled.pids q,
                fresh p e,
                count-append (has_pid q) w.vars.procs (new ∷ []),
              );
            }))
  ]

  create_tasks-IsFilled :
      (all : List (List ℕ)) (r : Ready) (names : List (List ℕ)) (k : ℕ) (w : World Vars)
      → IsFilled k w
      → FreshChildren names w
      → IsSafe os (BootEnd all r) (λ _ w'. IsFilled (k + length names) w') (create_tasks os names w)
  unfolding create_tasks
  create_tasks-IsFilled all r [] k w filled fresh =
      goes_on (record { size = omega (arith, filled.size); pids = filled.pids })
  create_tasks-IsFilled all r (name ∷ names) k w filled (here, later) =
      IsSafe-then (IsSafe-ran (create_task-IsFilled all r k name w filled here)) λ _ w' (g, ran).
        IsSafe-mono (create_tasks-IsFilled all r names (k + 1) w' g (later w' ran))
          λ _ w'' g'. record { size = omega (arith, g'.size); pids = g'.pids }

  on_ready-IsSafe :
      {P : World Vars → Type 0} (all : List (List ℕ)) (r : Ready) (w : World Vars)
      → P w
      → IsSafe os (BootEnd all r) (λ _ w'. P w') (on_ready r w)
  unfolding on_ready
  on_ready-IsSafe all (Ready.ready rest) w p = goes_on p
  on_ready-IsSafe all Ready.blocked w p = leaves (inr (inr (refl, refl)))
  on_ready-IsSafe all Ready.failed w p = leaves (inr (inl (refl, refl)))

  -- When each child that `fork` makes gets a fresh pid, the start leaves one task for each program of
  -- the command line, with unique pids. Otherwise the program exits with status -1 because there is
  -- no program or a `fork` failed, with status 1 because a child did not stop, it waits for a child
  -- that never stops, or the system refuses a call. NULL is not followed.
  pub boot-IsGood :
      (names : List (List ℕ)) (reports : List (ℕ × Status))
      → FreshChildren names start
      → IsSafe os
          (BootEnd names (wait_for_ready_children (length names) reports))
          (λ _ w'. IsGood w' × (length w'.vars.procs ≡ length names))
          (boot os names reports start)
  unfolding boot
  boot-IsGood [] reports fresh = leaves (inl (refl, inl refl))
  boot-IsGood (name ∷ names) reports fresh =
      let none_yet : IsFilled 0 start = record { size = refl; pids = λ p. omega arith } in
      rw (ne→== (suc (length names)) 0 (λ e. omega arith)) (
        IsSafe-then (create_tasks-IsFilled (name ∷ names) _ (name ∷ names) 0 start none_yet fresh)
          λ _ w g.
            IsSafe-then
              (on_ready-IsSafe {P = IsFilled (length (name ∷ names))} (name ∷ names) _ w
                (record { size = omega (arith, g.size); pids = g.pids }))
              λ _ w' g'.
                IsSafe-mono (IsSafe-Never (start_next_process-kept os w' (omega (arith, g'.size))))
                  λ _ w'' e. (
                    record {
                      some_proc = rw e (omega (arith, g'.size));
                      pids = λ p. rw e (g'.pids p);
                    },
                    rw e g'.size,
                  ))
