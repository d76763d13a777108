-- ===== src/Exer4/Prio/Started.antt =====
-- Starting the next process, and turning the list that is served.
use cslab_os.Base.{
  ℕ, ◌+◌, ◌≤◌, ◌<◌, ◌≡◌, refl, true, none, some, Bool, List, [], ◌∷◌, arith, count, inl, inr,
  Bool-cases, count-rotate, rotate, if◌then◌else◌, ◌∙◌,
}
use cslab_os.Base.Int.{pos}
use cslab_os.Exer4.Plist.Memory.{Proc}
use cslab_os.Exer4.Plist.Ops.{has_pid, has_id}
use cslab_os.Exer4.Os.{Os, World, kill, alarm, sigcont}
use cslab_os.Exer4.Safe.{Never, IsSafe, goes_on, checked_kill-IsSafe, IsSafe-mono}
use cslab_os.Exer4.Prio.Defs.{Vars, head_pid, tq_sec, start_next_process, turn, is_empty}
use cslab_os.Exer4.Prio.Invariant.{IsGood, total, IsSound}

-- The process at the head of the list that is served is current, and was sent SIGCONT with a fresh
-- alarm behind it; the lists are as they were.
pub record IsStarted (w w' : World Vars) : Type 0 where
  pub chosen : head_pid w.vars.high_procs w.vars.low_procs ≡ some w'.vars.current_pid
  pub high : w'.vars.high_procs ≡ w.vars.high_procs
  pub low : w'.vars.low_procs ≡ w.vars.low_procs
  pub next_id : w'.vars.next_id ≡ w.vars.next_id
  pub log : w'.log ≡ alarm tq_sec ∷ kill w'.vars.current_pid sigcont ∷ w.log

pub head_pid-none : (high low : List Proc) → head_pid high low ≡ none → (high ≡ []) × (low ≡ [])
unfolding head_pid
head_pid-none [] [] e = (refl, refl)
head_pid-none [] (v ∷ low) e = cc
head_pid-none (v ∷ high) low e = cc

is_empty-nil : (vs : List Proc) → is_empty vs ≡ true → vs ≡ []
is_empty-nil [] e = refl
is_empty-nil (v ∷ vs) e = cc

-- What a stop of the current process leads to: the served list has moved on by one.
pub record IsTurned (w w' : World Vars) : Type 0 where
  pub chosen : head_pid w'.vars.high_procs w'.vars.low_procs ≡ some w'.vars.current_pid
  pub high : w'.vars.high_procs ≡ rotate w.vars.high_procs
  pub low :
      w'.vars.low_procs
      ≡ (if is_empty w.vars.high_procs then rotate w.vars.low_procs else w.vars.low_procs)
  pub log : w'.log ≡ alarm tq_sec ∷ kill w'.vars.current_pid sigcont ∷ w.log

pub turn-IsTurned :
    (w w' : World Vars) → IsStarted (record w { vars = turn w.vars }) w' → IsTurned w w'
unfolding turn
turn-IsTurned w w' st = elim (Bool-cases (is_empty w.vars.high_procs)) [
  | inl lone ↦
      let no_high = is_empty-nil w.vars.high_procs lone in
      record {
        chosen = rw (st.high, st.low) st.chosen;
        high = st.high ∙ rw (lone, no_high) refl;
        low = st.low ∙ rw lone refl;
        log = st.log;
      }
  | inr two ↦ record {
    chosen = rw (st.high, st.low) st.chosen;
    high = st.high ∙ rw two refl;
    low = st.low ∙ rw two refl;
    log = st.log;
  }
]

head_pid-counts :
    (high low : List Proc) (p : ℕ)
    → head_pid high low ≡ some p
    → 0 < count (has_pid p) high + count (has_pid p) low
unfolding head_pid
head_pid-counts [] [] p e = cc
head_pid-counts [] (v ∷ low) p e = ground arith
head_pid-counts (v ∷ high) low p e = ground arith

-- Soundness passes to any part of the same tasks.
pub IsSound-le :
    (s s' : Vars)
    → IsSound s
    → ((t : Proc → Bool) → total t s' ≤ total t s)
    → s'.next_id ≡ s.next_id
    → IsSound s'
IsSound-le s s' sound fewer next = record {
  pids = λ p. omega (arith, sound.pids p, fewer (has_pid p));
  ids = λ z. omega (arith, sound.ids z, fewer (has_id z));
  no_zero = omega (arith, sound.no_zero, fewer (has_pid 0));
  unused = λ n le. omega (arith, sound.unused n (omega arith), fewer (has_id (pos n)));
}

pub total-turn : (t : Proc → Bool) (s : Vars) → total t (turn s) ≡ total t s
unfolding turn
total-turn t s = ground (arith, count-rotate t s.high_procs, count-rotate t s.low_procs)

pub next_id-turn : (s : Vars) → (turn s).next_id ≡ s.next_id
unfolding turn
next_id-turn s = ground arith

module _ (os : Os) where
  start_next_process-IsStarted :
      (w : World Vars) (p : ℕ)
      → head_pid w.vars.high_procs w.vars.low_procs ≡ some p
      → IsSafe os Never (λ _ w'. IsStarted w w') (start_next_process os w)
  unfolding start_next_process
  start_next_process-IsStarted w p e =
      rw (e, start_next_process)
        (checked_kill-IsSafe os _ p sigcont _
          (goes_on (record { chosen = e; high = refl; low = refl; next_id = refl; log = refl })))

  pub start_next_process-Good :
      (w : World Vars) (p : ℕ)
      → head_pid w.vars.high_procs w.vars.low_procs ≡ some p
      → IsSound w.vars
      → IsSafe os Never (λ _ w'. IsStarted w w' × IsGood w') (start_next_process os w)
  start_next_process-Good w p e sound = IsSafe-mono (start_next_process-IsStarted w p e) λ _ w' st.
      let kept : (t : Proc → Bool) → total t w'.vars ≡ total t w.vars = λ t. rw (st.high, st.low) in
      (
        st,
        (
          IsSound-le w.vars w'.vars sound (λ t. omega (arith, kept t)) st.next_id,
          omega (
            arith,
            kept (has_pid w'.vars.current_pid),
            head_pid-counts w.vars.high_procs w.vars.low_procs w'.vars.current_pid st.chosen,
          ),
        ),
      )
