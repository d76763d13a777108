-- ===== src/Exer4/Sched/Rounds.antt =====
-- The order in which exer4/sched/scheduler.c serves its processes: round robin.
use cslab_os.Base.{
  ℕ, ◌≡◌, refl, true, List, [], ◌∷◌, ◌++◌, map, append_assoc, eq→==, drop, append-nil, ap, ◌∙◌,
}
use cslab_os.ProcCommon.{stopped_by}
use cslab_os.Exer4.Os.{Os, Call, Wait, child, Signal, running, alarm, kill, sigcont, checked_kill}
use cslab_os.Exer4.Plist.Memory.{Proc}
use cslab_os.Exer4.Sched.Defs.{
  head_pid, start_next_process, on_stopped, on_status, sigchld_handler, tq_sec,
}
use cslab_os.Exer4.Sched.Good.{with_procs}

-- The reports that each process in turn was stopped by the signal.
abbrev pub stops : ℕ → List Proc → List Wait
stops sig vs = map (λ v. child v.pid (stopped_by sig)) vs

-- The log after each process in turn was continued, with a fresh alarm behind it.
abbrev pub starts : List Proc → List Call → List Call
starts [] log = log
starts (v ∷ vs) log = starts vs (alarm tq_sec ∷ kill v.pid sigcont ∷ log)

module _ (os : Os) (kills : (log : List Call) (p : ℕ) (s : Signal) → os.kill_ok log p s ≡ true)
    (sig n : ℕ) where
  start_next_process-first :
      (u : Proc) (us : List Proc) (log : List Call)
      → start_next_process os (with_procs (u ∷ us) n log)
        ≡ running tt (with_procs (u ∷ us) n (alarm tq_sec ∷ kill u.pid sigcont ∷ log))
  unfolding head_pid start_next_process checked_kill
  start_next_process-first u us log = rw (kills log u.pid sigcont) refl

  -- The head stops and the next in the list is started.
  on_stopped-next :
      (v u : Proc) (vs us : List Proc) (log : List Call)
      → vs ++ v ∷ [] ≡ u ∷ us
      → on_stopped os v.pid (with_procs (v ∷ vs) n log)
        ≡ running tt (with_procs (u ∷ us) n (alarm tq_sec ∷ kill u.pid sigcont ∷ log))
  unfolding on_stopped head_pid
  on_stopped-next v u vs us log e =
      rw (eq→== v.pid v.pid refl) (rw e (start_next_process-first u us log))

  -- Every process of a stretch of the list stops in turn: the stretch goes to the end.
  stretch :
      (vs us : List Proc) (u : Proc) (log : List Call)
      → sigchld_handler os (stops sig vs) (with_procs (vs ++ u ∷ us) n log)
        ≡ running tt (with_procs (u ∷ us ++ vs) n (starts (drop 1 (vs ++ u ∷ [])) log))
  unfolding sigchld_handler on_status
  stretch [] us u log = rw (append-nil us) refl
  stretch (v ∷ []) us u log = rw (on_stopped-next v u (u ∷ us) (us ++ v ∷ []) log refl) refl
  stretch (v ∷ x ∷ vs) us u log =
      rw
        (on_stopped-next v x (x ∷ vs ++ u ∷ us) (vs ++ u ∷ (us ++ v ∷ [])) log
          (ap (λ ws. x ∷ ws) (append_assoc vs (u ∷ us) (v ∷ []))))
        (stretch (x ∷ vs) (us ++ v ∷ []) u _ ∙ rw (append_assoc us (v ∷ []) (x ∷ vs)) refl)

  -- When every `kill` succeeds and each process of the list stops in turn, by any signal: the SIGCHLD
  -- handler continues each of them once, in list order from the second on and the first one last,
  -- with a fresh alarm each time, and the list is at the end as it was.
  pub sigchld_handler-round :
      (v : Proc) (vs : List Proc) (log : List Call)
      → sigchld_handler os (stops sig (v ∷ vs)) (with_procs (v ∷ vs) n log)
        ≡ running tt (with_procs (v ∷ vs) n (starts (vs ++ v ∷ []) log))
  unfolding sigchld_handler on_status
  sigchld_handler-round v [] log = rw (on_stopped-next v v [] [] log refl) refl
  sigchld_handler-round v (u ∷ us) log =
      rw (on_stopped-next v u (u ∷ us) (us ++ v ∷ []) log refl) (stretch (u ∷ us) [] v _)
