-- ===== src/Exer4/Prio/Dispatch.antt =====
-- `process_request`: every request of the shell is answered, and leaves the tables sound.
use cslab_os.Base.{
  ℕ, ◌+◌, ◌<◌, ◌≡◌, ◌≢◌, refl, true, false, some, Bool, List, [], ◌∷◌, arith, count, find?,
  find?-test, Option-cases, inl, inr, ◌||◌, count-none, count-pos_of_find?, ◌==◌, ne→==, Bool-cases,
  not, ◌∙◌, ap, ◌≤◌, if◌then◌else◌, subst, sym,
}
use cslab_os.Base.Int.{ℤ, pos, negsuc}
use cslab_os.Exer4.Plist.Memory.{Proc}
use cslab_os.Exer4.Plist.Ops.{has_pid, has_id}
use cslab_os.Exer4.Os.{Os, World, Call, kill, sigkill, then_run}
use cslab_os.Exer4.Safe.{Never, IsSafe, goes_on, checked_kill-IsSafe, IsSafe-mono, IsSafe-then}
use cslab_os.Exer4.Prio.Defs.{
  Vars, head_pid, found_pid, lookup_pid, sched_kill_task_by_id, assert_tasks, Request, kill_task,
  process_request, sched_print_tasks, exec_task, high_task, low_task, enosys, print_tasks, other,
}
use cslab_os.Exer4.Prio.Create.{FreshChild, sched_create_task-IsGrown}
use cslab_os.Exer4.Prio.Invariant.{total, IsSound, Serves}
use cslab_os.Exer4.Prio.Requests.{
  has_key, known, sched_high_task_by_id-IsKept, sched_low_task_by_id-IsKept,
}

-- There is a task at the head of one list or the other.
pub head_pid-some :
    (high low : List Proc) (t : Proc → Bool)
    → 0 < count t high + count t low
    → (p : ℕ) × (head_pid high low ≡ some p)
unfolding head_pid
head_pid-some [] [] t h = absurd (omega arith)
head_pid-some [] (v ∷ low) t h = (v.pid, refl)
head_pid-some (v ∷ high) low t h = (v.pid, refl)

abbrev pub knows : ℤ → Vars → Bool
knows id s = known id s.high_procs || known id s.low_procs

-- What a search of a list for an id gives: 0 if no task has it, and else the pid of one that does.
record IsLookup (id : ℤ) (vs : List Proc) (p : ℕ) : Type 0 where
  zero_iff : (p == 0) ≡ not (known id vs)
  names : known id vs ≡ true → 0 < count (has_key id p) vs

found_pid-IsLookup :
    (id : ℤ) (vs : List Proc)
    → count (has_pid 0) vs ≡ 0
    → IsLookup id vs (found_pid (find? (has_id id) vs))
found_pid-IsLookup id vs no_zero = elim (Option-cases (find? (has_id id) vs)) [
  | inl miss ↦
      let away : known id vs ≡ false = ground (arith, count-none (has_id id) vs) in
      rw (miss, found_pid) (record { zero_iff = rw away; names = λ h. cc })
  | inr (v, e) ↦
      let hit = find?-test (has_id id) vs e in
      let here : known id vs ≡ true =
        ground (arith, count-pos_of_find? (has_id id) (has_id id) vs {v = v}) in
      let some_pid : v.pid ≢ 0 =
        ground (arith, count-pos_of_find? (has_id id) (has_pid 0) vs {v = v}) in
      let key = count-pos_of_find? (has_id id) (has_key id v.pid) vs e (ground arith) in
      rw (e, found_pid) (record { zero_iff = rw here (ne→== v.pid 0 some_pid); names = λ _. key })
]

-- The two searches of `sched_kill_task_by_id` together.
record IsTarget (id : ℤ) (s : Vars) (p : ℕ) : Type 0 where
  zero_iff : (p == 0) ≡ not (knows id s)
  names : knows id s ≡ true → 0 < total (has_key id p) s

lookup_pid-IsTarget : (id : ℤ) (s : Vars) → IsSound s → IsTarget id s (lookup_pid id s)
unfolding lookup_pid
lookup_pid-IsTarget id s sound =
    let up = found_pid-IsLookup id s.high_procs (omega (arith, sound.no_zero)) in
    let down = found_pid-IsLookup id s.low_procs (omega (arith, sound.no_zero)) in
    elim (Bool-cases (known id s.high_procs)) [
      | inl here ↦
          let nonzero = up.zero_iff ∙ ap not here in
          rw nonzero
            (record { zero_iff = rw here nonzero; names = λ _. omega (arith, up.names here) })
      | inr away ↦ rw (up.zero_iff ∙ ap not away) (record {
        zero_iff = rw away down.zero_iff;
        names = λ h. omega (arith, down.names (ground arith));
      })
    ]

count_key-le : (id : ℤ) (p : ℕ) (vs : List Proc) → count (has_key id p) vs ≤ count (has_id id) vs
count_key-le id p [] = omega arith
count_key-le id p (v ∷ vs) = ground (arith, count_key-le id p vs)

total_key-knows : (id : ℤ) (p : ℕ) (s : Vars) → 0 < total (has_key id p) s → knows id s ≡ true
total_key-knows id p s h =
    ground (arith, count_key-le id p s.high_procs, count_key-le id p s.low_procs)

-- A kill request: one SIGKILL to the pid of a task with the id, or the answer -1 and nothing sent.
pub data IsKillOf (id : ℤ) (s : Vars) (log : List Call) : ℤ → List Call → Type 0 where
  sent :
      (p : ℕ)
      → 0 < total (has_key id p) s
      → p ≢ 0
      → IsKillOf id s log (pos 0) (kill p sigkill ∷ log)
  unknown : knows id s ≡ false → IsKillOf id s log (negsuc 0) log

module _ (os : Os) (w : World Vars) (sound : IsSound w.vars) (serves : Serves w.vars) where
  -- On sound tables with the current process among the tasks, a kill request sends one SIGKILL, to a
  -- non-zero pid that a task with the id has, and answers 0; with an unknown id it sends nothing and
  -- answers -1. The tables stay as they are. It may exit only when the system refuses the signal.
  pub sched_kill_task_by_id-IsKillOf :
      (id : ℤ)
      → IsSafe os Never
          (λ r w'. (w'.vars ≡ w.vars) × IsKillOf id w.vars w.log r w'.log)
          (sched_kill_task_by_id os id w)
  unfolding sched_kill_task_by_id assert_tasks
  sched_kill_task_by_id-IsKillOf id =
      let t = lookup_pid-IsTarget id w.vars sound in
      let (p, e) =
        head_pid-some w.vars.high_procs w.vars.low_procs (has_pid w.vars.current_pid) serves in
      elim (Bool-cases (knows id w.vars)) [
        | inr away ↦ rw (e, then_run, t.zero_iff ∙ ap not away) (goes_on (refl, unknown away))
        | inl here ↦
            rw (e, then_run, t.zero_iff ∙ ap not here)
              (checked_kill-IsSafe os w _ sigkill _
                (goes_on (refl, sent _ (t.names here) (ground (arith, t.zero_iff)))))
      ]

  abbrev pub Stable : Vars → Type 0
  Stable s = IsSound s × Serves s × (s.current_pid ≡ w.vars.current_pid)

  -- The answer that a request deserves.
  abbrev pub reply : Request → ℤ
  reply print_tasks = pos 0
  reply (kill_task id) = if knows id w.vars then pos 0 else negsuc 0
  reply (exec_task name) = pos 0
  reply (high_task id) = if known id w.vars.low_procs then pos 0 else negsuc 0
  reply (low_task id) = if known id w.vars.high_procs then pos 0 else negsuc 0
  reply other = enosys

  IsKillOf-reply :
      (id : ℤ) (r : ℤ) (log : List Call) → IsKillOf id w.vars w.log r log → r ≡ reply (kill_task id)
  IsKillOf-reply id r log (sent p key ne) = ground (arith, total_key-knows id p w.vars)
  IsKillOf-reply id r log (unknown away) = rw away

  -- On sound tables with the current process among the tasks, and when `fork` gives a child a fresh
  -- pid: every request keeps the tables sound and the same current process among the tasks, and its
  -- answer is 0, except -1 for a kill with an id that no task has, for a high request with an id that
  -- is not on the low list and for a low request with one that is not on the high list, and -38 for
  -- any other request. The program may exit only where the system refuses a call.
  pub process_request-Stable :
      (rq : Request)
      → FreshChild os w
      → IsSafe os Never (λ r w'. Stable w'.vars × (r ≡ reply rq)) (process_request os rq w)
  unfolding process_request sched_print_tasks
  process_request-Stable print_tasks fresh = goes_on ((sound, serves, refl), refl)
  process_request-Stable (kill_task id) fresh =
      IsSafe-mono (sched_kill_task_by_id-IsKillOf id)
        λ r w' (e, k). (subst Stable (sym e) (sound, serves, refl), IsKillOf-reply id r w'.log k)
  process_request-Stable (exec_task name) fresh =
      IsSafe-then (sched_create_task-IsGrown os w sound name fresh) λ _ w' g. goes_on (
        (
          g.sound,
          rw g.current (omega (arith, serves, g.more (has_pid w.vars.current_pid))),
          g.current,
        ),
        refl,
      )
  process_request-Stable (high_task id) fresh =
      IsSafe-mono (sched_high_task_by_id-IsKept os id w sound serves)
        λ r w' (k, e, _). ((k.sound, k.serves, k.served), e)
  process_request-Stable (low_task id) fresh =
      IsSafe-mono (sched_low_task_by_id-IsKept os id w sound serves)
        λ r w' (k, e, _). ((k.sound, k.serves, k.served), e)
  process_request-Stable other fresh = goes_on ((sound, serves, refl), refl)
