-- ===== src/Exer4/Prio/Main.antt =====
-- The whole run: `main` brings the tables up, and then events arrive in any order.
use cslab_os.Base.{
  ℕ, ◌+◌, ◌<◌, ◌≡◌, refl, true, false, none, Option, Bool, List, [], ◌∷◌, arith, length,
  Option-cases, inl, inr, ◌∙◌, ◌⊎◌,
}
use cslab_os.Base.Int.{ℤ, pos}
use cslab_os.ProcCommon.{Status, Ready, wait_for_ready_children}
use cslab_os.Exer4.Os.{
  End, exit_with, wait_forever, Os, World, running, then_run, End, exit_with, wait_forever,
}
use cslab_os.Exer4.Safe.{
  Never, IsSafe, goes_on, leaves, IsSafe-Never, checked_malloc-IsSafe, IsSafe-then, IsSafe-mono,
  IsSafe-ran, checked_kill-IsSafe_last, IsSafe-running,
}
use cslab_os.Exer4.Prio.Defs.{
  Vars, create_tasks, sched_create_task, sched_create_shell, await_children, start_shell, boot,
  Event, request, alarm_rang, child_changed, handle, globals, on_ready,
}
use cslab_os.Exer4.Prio.Invariant.{IsGood, total, IsSound}
use cslab_os.Exer4.Prio.Create.{FreshChild, IsGrown, sched_create_task-IsGrown, IsGrown-snoc}
use cslab_os.Exer4.Prio.Dispatch.{process_request-Stable, head_pid-some}
use cslab_os.Exer4.Prio.Started.{start_next_process-Good}
use cslab_os.Exer4.Prio.Children.{sigchld_handler-Good, sigalrm_handler-Good, ChildrenEnd}

-- The process as it starts.
abbrev pub start : World Vars
start = record { vars = globals; log = [] }

module _ (os : Os) where
  -- Each `fork` of the start gives a fresh pid.
  abbrev pub FreshChildren : List (List ℕ) → World Vars → Type 0
  FreshChildren [] w = Unit
  FreshChildren (name ∷ names) w =
      FreshChild os w
      × ((w' : World Vars) → sched_create_task os name w ≡ running tt w' → FreshChildren names w')

  create_tasks-IsGrown :
      (names : List (List ℕ)) (w : World Vars)
      → IsSound w.vars
      → FreshChildren names w
      → IsSafe os Never (λ _ w'. IsGrown w.vars w'.vars) (create_tasks os names w)
  unfolding create_tasks
  create_tasks-IsGrown [] w sound fresh =
      goes_on (record { sound = sound; more = λ t. omega arith; current = refl })
  create_tasks-IsGrown (name ∷ names) w sound (here, later) =
      IsSafe-then (IsSafe-ran (sched_create_task-IsGrown os w sound name here)) λ _ w' (g, ran).
        IsSafe-mono (create_tasks-IsGrown names w' g.sound (later w' ran)) λ _ w'' g'. record {
          sound = g'.sound;
          more = λ t. omega (arith, g.more t, g'.more t);
          current = g'.current ∙ g.current;
        }

  IsSound-globals : IsSound globals
  IsSound-globals = record {
    pids = λ p. omega arith;
    ids = λ z. omega arith;
    no_zero = refl;
    unused = λ n le. refl;
  }

  -- Why a start ends: no pipe or no child for the shell, a child that died, or one that never stops.
  abbrev pub BootEnd : Bool → Ready → End → World Vars → Type 0
  BootEnd pipes r e w =
      ((e ≡ exit_with (pos 1)) × ((pipes ≡ false) ⊎ (os.fork [] ≡ none) ⊎ (r ≡ Ready.failed)))
      ⊎ ((e ≡ wait_forever) × (r ≡ Ready.blocked))

  start_shell-IsSound :
      (pipes : Bool) (r : Ready)
      → FreshChild os start
      → IsSafe os
          (BootEnd pipes r)
          (λ _ w'. IsSound w'.vars × (0 < total (λ v. true) w'.vars))
          (start_shell os pipes start)
  unfolding start_shell sched_create_shell
  start_shell-IsSound false r fresh = leaves (inl (refl, inl refl))
  start_shell-IsSound true r fresh = elim (Option-cases (os.fork [])) [
    | inl e ↦ rw (e, then_run) (leaves (inl (refl, inr (inl e))))
    | inr (p, e) ↦
        let (nonzero, unused_pid) = fresh p e in
        rw (e, then_run)
          (checked_malloc-IsSafe os _ _ λ bytes.
            let g = IsGrown-snoc os start p _ bytes IsSound-globals nonzero unused_pid in
            checked_kill-IsSafe_last os _ p _ (g.sound, omega arith))
  ]

  -- The fresh pids that `main` is given: the shell's first, then one for each task.
  pub record FreshBoot (pipes : Bool) (names : List (List ℕ)) : Type 0 where
    pub shell : FreshChild os start
    pub tasks :
        (w' : World Vars) → start_shell os pipes start ≡ running tt w' → FreshChildren names w'

  on_ready-IsSafe :
      {P : World Vars → Type 0} (pipes : Bool) (r : Ready) (w : World Vars)
      → P w
      → IsSafe os (BootEnd pipes r) (λ _ w'. P w') (on_ready r w)
  unfolding on_ready
  on_ready-IsSafe pipes (Ready.ready rest) w p = goes_on p
  on_ready-IsSafe pipes Ready.blocked w p = leaves (inr (refl, refl))
  on_ready-IsSafe pipes Ready.failed w p = leaves (inl (refl, inr (inr refl)))

  abbrev HasTask : World Vars → Type 0
  HasTask w = IsSound w.vars × (0 < total (λ v. true) w.vars)

  -- When each child that `fork` makes gets a fresh pid, the start of the scheduler leaves sound tables
  -- with the current process among the tasks. Otherwise the program exits with status 1 because a
  -- pipe or the shell's child could not be made or a child ended or went on instead of stopping, it
  -- waits for a child that never stops, or the system refuses a call. No assertion fails.
  pub boot-Good :
      (pipes : Bool) (names : List (List ℕ)) (reports : List (ℕ × Status))
      → FreshBoot pipes names
      → IsSafe os
          (BootEnd pipes (wait_for_ready_children (length names + 1) reports))
          (λ _ w'. IsGood w')
          (boot os pipes names reports start)
  unfolding boot await_children
  boot-Good pipes names reports fresh =
      IsSafe-then (IsSafe-ran (start_shell-IsSound pipes _ fresh.shell)) λ _ w ((sound, task), ran).
        IsSafe-then (IsSafe-Never (create_tasks-IsGrown names w sound (fresh.tasks w ran)))
          λ _ w' g.
            IsSafe-then
              (on_ready-IsSafe {P = HasTask} pipes _ w'
                (g.sound, omega (arith, task, g.more (λ v. true))))
              λ _ w'' (sound', task').
                let (q, e) =
                  head_pid-some w''.vars.high_procs w''.vars.low_procs (λ v. true) task' in
                IsSafe-mono (IsSafe-Never (start_next_process-Good os w'' q e sound'))
                  λ _ _ (_, good). good

  -- A state that some run of the scheduler comes to.
  pub data Reach : World Vars → Type 0 where
    booted :
        (pipes : Bool) (names : List (List ℕ)) (reports : List (ℕ × Status)) {w : World Vars}
        → FreshBoot pipes names
        → boot os pipes names reports start ≡ running tt w
        → Reach w
    after :
        {w w' : World Vars} {ret : Option ℤ} (ev : Event)
        → Reach w
        → FreshChild os w
        → handle os ev w ≡ running ret w'
        → Reach w'

  -- The ends that an event may bring: none but those of the SIGCHLD handler.
  abbrev pub EventEnd : Event → End → World Vars → Type 0
  EventEnd (child_changed ws) = ChildrenEnd ws
  EventEnd _ = Never

  handle-Good :
      (ev : Event) (w : World Vars)
      → FreshChild os w
      → IsGood w
      → IsSafe os (EventEnd ev) (λ _ w'. IsGood w') (handle os ev w)
  unfolding handle
  handle-Good (request rq) w fresh good =
      IsSafe-then (process_request-Stable os w good.0 good.1 rq fresh)
        λ _ w' r. goes_on (r.0.0, r.0.1)
  handle-Good alarm_rang w fresh good =
      IsSafe-then (sigalrm_handler-Good os w good) λ _ w' r. goes_on r.0
  handle-Good (child_changed ws) w fresh good =
      IsSafe-then (sigchld_handler-Good os ws w good) λ _ w' r. goes_on r

  Reach-Good : {w : World Vars} → Reach w → IsGood w
  Reach-Good (booted pipes names reports fresh ran) =
      IsSafe-running (boot-Good pipes names reports fresh) ran
  Reach-Good (after {w} ev r fresh ran) = IsSafe-running (handle-Good ev w fresh (Reach-Good r)) ran

  -- In every state that a run comes to, when every child that `fork` made got a fresh pid: ids and
  -- pids of the tasks are unique, no pid is 0, and the current process is a task. The next event then
  -- fails no assertion and follows no NULL, and leads to such a state again, or the program exits:
  -- the SIGCHLD handler does so with status 0 when no task is left and with -1 when `waitpid` failed,
  -- and each handler where the system refuses a call.
  pub Reach-IsSafe :
      (ev : Event) {w : World Vars}
      → Reach w
      → FreshChild os w
      → IsGood w × IsSafe os (EventEnd ev) (λ _ w'. IsGood w') (handle os ev w)
  Reach-IsSafe ev {w} r fresh = let good = Reach-Good r in (good, handle-Good ev w fresh good)
