-- ===== src/Exer4/Prio/Requests.antt =====
-- The requests of the shell keep the tables sound and answer as they should.
use cslab_os.Base.{
  ℕ, ◌≤◌, ◌≡◌, refl, true, false, some, Bool, List, arith, count, find?, find?-test, find?-unique,
  erase_first, count-erase_first, if◌then◌else◌, Option-cases, inl, inr, ◌&&◌, count-none,
  count-pos_of_find?, ltb, sym,
}
use cslab_os.Base.Int.{ℤ, pos, negsuc, beq→eq}
use cslab_os.Exer4.Plist.Memory.{Proc}
use cslab_os.Exer4.Plist.Ops.{has_pid, has_id}
use cslab_os.Exer4.Os.{Os, World}
use cslab_os.Exer4.Prio.Defs.{Vars, new_task, sched_high_task_by_id, sched_low_task_by_id}
use cslab_os.Exer4.Safe.{Never, IsSafe, goes_on, checked_malloc-IsSafe}
use cslab_os.Exer4.Prio.Invariant.{total, IsSound, Serves, total-move}

abbrev pub has_key : ℤ → ℕ → Proc → Bool
has_key id pid v = has_id id v && has_pid pid v

-- The same tasks, by id and pid, each as often, whatever their lists and places.
abbrev pub SameTasks : Vars → Vars → Type 0
SameTasks s s' = (id : ℤ) (pid : ℕ) → total (has_key id pid) s' ≡ total (has_key id pid) s

abbrev pub known : ℤ → List Proc → Bool
known id vs = ltb 0 (count (has_id id) vs)

-- The tables are sound, serve the same process and hold the same tasks.
pub record IsKept (s s' : Vars) : Type 0 where
  pub sound : IsSound s'
  pub serves : Serves s'
  pub same : SameTasks s s'
  pub served : s'.current_pid ≡ s.current_pid

module _ (s s' : Vars) (v new : Proc) (sound : IsSound s) (serves : Serves s) where
  -- A task is replaced by one with its keys.
  IsKept-swap :
      ((u : Proc → Bool) → u new ≡ u v → total u s' ≡ total u s)
      → new.pid ≡ v.pid
      → new.id ≡ v.id
      → s'.next_id ≡ s.next_id
      → s'.current_pid ≡ s.current_pid
      → IsKept s s'
  IsKept-swap moves e_pid e_id e_next e_current = record {
    sound = record {
      pids = λ p. omega (arith, sound.pids p, moves (has_pid p) (ground arith));
      ids = λ z. omega (arith, sound.ids z, moves (has_id z) (ground arith));
      no_zero = omega (arith, sound.no_zero, moves (has_pid 0) (ground arith));
      unused = λ n le.
          omega (arith, sound.unused n (omega arith), moves (has_id (pos n)) (ground arith));
    };
    serves = rw e_current (omega (arith, serves, moves (has_pid s.current_pid) (ground arith)));
    same = λ z p. moves (has_key z p) (ground arith);
    served = e_current;
  }

IsKept-refl : (s : Vars) → IsSound s → Serves s → IsKept s s
IsKept-refl s sound serves = record {
  sound = sound;
  serves = serves;
  same = λ z p. refl;
  served = refl;
}

module _ (os : Os) (id : ℤ) (w : World Vars) (sound : IsSound w.vars) (serves : Serves w.vars) where
  abbrev low : List Proc
  low = w.vars.low_procs

  abbrev high : List Proc
  high = w.vars.high_procs

  -- The task that a search by id finds: what the code then does by its pid does it to this task.
  record Found (vs : List Proc) (v : Proc) : Type 0 where
    id_v : v.id ≡ id
    by_pid : find? (has_pid v.pid) vs ≡ some v
    here : known id vs ≡ true
    gone : known id (erase_first (has_pid v.pid) vs) ≡ false

  found :
      (vs : List Proc) (v : Proc)
      → find? (has_id id) vs ≡ some v
      → count (has_pid v.pid) vs ≤ 1
      → count (has_id id) vs ≤ 1
      → Found vs v
  found vs v e one_pid one_id =
      let hit = find?-test (has_id id) vs e in
      let by_pid = find?-unique (has_id id) (has_pid v.pid) vs e (ground arith) one_pid in
      record {
        id_v = beq→eq v.id id hit;
        by_pid = by_pid;
        here = ground (arith, count-pos_of_find? (has_id id) (has_id id) vs {v = v});
        gone = ground (arith, count-erase_first (has_pid v.pid) (has_id id) vs by_pid);
      }

  -- On sound tables with the current process among the tasks, a request for high priority answers 0
  -- when a task of the low list has the id and -1 otherwise, and afterwards no task of the low list
  -- has it. The tables stay sound with the same current process among the tasks, and by id and pid
  -- the two lists together hold the same tasks, each as often. The program may exit only where the
  -- system has no memory.
  pub sched_high_task_by_id-IsKept :
      IsSafe os Never
        (λ r w'.
          IsKept w.vars w'.vars
          × (r ≡ (if known id low then pos 0 else negsuc 0))
          × (known id w'.vars.low_procs ≡ false))
        (sched_high_task_by_id os id w)
  unfolding sched_high_task_by_id
  sched_high_task_by_id-IsKept = elim (Option-cases (find? (has_id id) low)) [
    | inl e ↦
        let none_low : known id low ≡ false = ground (arith, count-none (has_id id) low) in
        rw e (goes_on (IsKept-refl w.vars sound serves, rw none_low, none_low))
    | inr (v, e) ↦
        let f = found low v e (omega (arith, sound.pids v.pid)) (omega (arith, sound.ids id)) in
        rw e (
          checked_malloc-IsSafe os w _ λ bytes. goes_on (
            IsKept-swap w.vars _ v (new_task id v.pid v.name bytes) sound serves
                (λ u h. total-move u low high v (new_task id v.pid v.name bytes) f.by_pid h) refl
                (sym f.id_v) refl refl,
            rw f.here,
            f.gone,
          ))
  ]

  -- On sound tables with the current process among the tasks, a request for low priority answers 0
  -- when a task of the high list has the id and -1 otherwise, and afterwards no task of the high list
  -- has it. The tables stay sound with the same current process among the tasks, and by id and pid
  -- the two lists together hold the same tasks, each as often. The program may exit only where the
  -- system has no memory.
  pub sched_low_task_by_id-IsKept :
      IsSafe os Never
        (λ r w'.
          IsKept w.vars w'.vars
          × (r ≡ (if known id high then pos 0 else negsuc 0))
          × (known id w'.vars.high_procs ≡ false))
        (sched_low_task_by_id os id w)
  unfolding sched_low_task_by_id
  sched_low_task_by_id-IsKept = elim (Option-cases (find? (has_id id) high)) [
    | inl e ↦
        let none_high : known id high ≡ false = ground (arith, count-none (has_id id) high) in
        rw e (goes_on (IsKept-refl w.vars sound serves, rw none_high, none_high))
    | inr (v, e) ↦
        let f = found high v e (omega (arith, sound.pids v.pid)) (omega (arith, sound.ids id)) in
        rw e (
          checked_malloc-IsSafe os w _ λ bytes. goes_on (
            IsKept-swap w.vars _ v (new_task id v.pid v.name bytes) sound serves
                (λ u h.
                  omega
                    (arith, total-move u high low v (new_task id v.pid v.name bytes) f.by_pid h))
                refl (sym f.id_v) refl refl,
            rw f.here,
            f.gone,
          ))
  ]
