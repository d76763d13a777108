-- ===== src/Exer4/Prio/Create.antt =====
-- `sched_create_task`: a new task at the end of the low list.
use cslab_os.Base.{
  ℕ, ◌+◌, ◌≤◌, ◌≡◌, ◌≢◌, refl, some, Bool, List, [], ◌∷◌, ◌++◌, arith, count-append, Option-cases,
  inl, inr,
}
use cslab_os.Base.Int.{pos, beq→eq}
use cslab_os.Exer4.Plist.Memory.{Proc}
use cslab_os.Exer4.Plist.Ops.{has_pid, has_id}
use cslab_os.Exer4.Os.{Os, World}
use cslab_os.Exer4.Safe.{Never, IsSafe, goes_on, checked_malloc-IsSafe}
use cslab_os.Exer4.Prio.Defs.{Vars, new_task, sched_create_task}
use cslab_os.Exer4.Prio.Invariant.{total, IsSound}

-- The tables are sound, no task is gone, and the same process is current.
pub record IsGrown (s s' : Vars) : Type 0 where
  pub sound : IsSound s'
  pub more : (t : Proc → Bool) → total t s ≤ total t s'
  pub current : s'.current_pid ≡ s.current_pid

module _ (os : Os) (w : World Vars) where
  -- The system gives a new child a pid that is not 0 and that no task has.
  abbrev pub FreshChild : Type 0
  FreshChild = (p : ℕ) → os.fork w.log ≡ some p → (p ≢ 0) × (total (has_pid p) w.vars ≡ 0)

  -- A new pid and the next id keep the tables sound.
  pub IsGrown-snoc :
      (p : ℕ) (name bytes : List ℕ)
      → IsSound w.vars
      → p ≢ 0
      → total (has_pid p) w.vars ≡ 0
      → IsGrown w.vars (record w.vars {
        low_procs = w.vars.low_procs ++ new_task (pos w.vars.next_id) p name bytes ∷ [];
        next_id = w.vars.next_id + 1;
      })
  IsGrown-snoc p name bytes sound nonzero unused_pid =
      let new : Proc = new_task (pos w.vars.next_id) p name bytes in
      let adds = λ (t : Proc → Bool). count-append t w.vars.low_procs (new ∷ []) in
      record {
        sound = record {
          pids = λ q. ground (arith, sound.pids q, adds (has_pid q));
          ids = λ z. ground (
            arith,
            sound.ids z,
            sound.unused w.vars.next_id (omega arith),
            adds (has_id z),
            beq→eq (pos w.vars.next_id) z,
          );
          no_zero = ground (arith, sound.no_zero, adds (has_pid 0));
          unused = λ n le. ground (arith, sound.unused n (omega arith), adds (has_id (pos n)));
        };
        more = λ t. omega (arith, adds t);
        current = refl;
      }

  pub sched_create_task-IsGrown :
      IsSound w.vars
      → (name : List ℕ) → FreshChild
      → IsSafe os Never (λ _ w'. IsGrown w.vars w'.vars) (sched_create_task os name w)
  unfolding sched_create_task
  sched_create_task-IsGrown sound name fresh = elim (Option-cases (os.fork w.log)) [
    | inl e ↦
        rw (e, sched_create_task)
          (goes_on (record { sound = sound; more = λ t. omega arith; current = refl }))
    | inr (p, e) ↦
        let (nonzero, unused_pid) = fresh p e in
        rw (e, sched_create_task)
          (checked_malloc-IsSafe os _ _
            λ bytes. goes_on (IsGrown-snoc p name bytes sound nonzero unused_pid))
  ]
