-- ===== src/Exer3/Kgarten/Signals/Refines.antt =====
-- Without the notes, a run is one of Defs, where a thread may wake at any time.
use cslab_os.Base.{
  ℕ, false, ◌≡◌, refl, sym, ap, ◌∙◌, subst, Bool, List, [], ◌∷◌, ◌++◌, map, map-append,
}
use cslab_os.Exer3.Kgarten.Defs
use cslab_os.Exer3.Kgarten.Signals
use cslab_os.Exer3.Kgarten.Defs.{next, holds, Thread, System, newcomers, init, Reach, pick, later}
use cslab_os.Exer3.Kgarten.Signals.{
  move_actor, advance, Actor, State, wake, Step, go, signal, signal_nobody, arrive, start, Run,
  begin, step,
}

abbrev pub thread_of : Actor → Thread
thread_of a = a.thread

abbrev pub plain : State → System
plain s = record { kg = s.kg; locked = s.locked; threads = map thread_of s.actors }

threads-wake :
    (before : List Actor) (a : Actor) (behind : List Actor)
    → map thread_of (before ++ wake a ∷ behind) ≡ map thread_of (before ++ a ∷ behind)
threads-wake [] a behind = refl
threads-wake (b ∷ before) a behind = ap (λ ts. b.thread ∷ ts) (threads-wake before a behind)

threads-arrive : (ts : List Thread) → map thread_of (map arrive ts) ≡ ts
threads-arrive [] = refl
threads-arrive (t ∷ ts) = ap (λ rest. t ∷ rest) (threads-arrive ts)

module _ (ratio : ℕ) (children : List Bool) where
  plain-go :
      (s : State) (before : List Actor) (a : Actor) (behind : List Actor)
      → s.actors ≡ before ++ a ∷ behind
      → holds a.thread.place ≡ s.locked
      → Reach ratio children (plain s)
      → Reach ratio children (plain (move_actor s before a behind))
  plain-go s before a behind e own reached =
      let t = a.thread in
      subst (Reach ratio children)
        (ap
          (λ (ts : List Thread). record {
            kg = (next t.is_child t.place s.kg).0;
            locked = holds (next t.is_child t.place s.kg).1;
            threads = ts;
          })
          (sym (map-append thread_of before (advance a s.kg ∷ behind))))
        (later reached (
          pick (map thread_of before) t (map thread_of behind)
            (ap (map thread_of) e ∙ map-append thread_of before (a ∷ behind)) own))

  plain-same :
      (s : State) (actors : List Actor)
      → map thread_of s.actors ≡ map thread_of actors
      → Reach ratio children (plain s)
      → Reach ratio children (plain (record s { actors = actors }))
  plain-same s actors e =
      subst
        (λ (ts : List Thread).
          Reach ratio children (record { kg = s.kg; locked = s.locked; threads = ts }))
        e

  plain-Step :
      {s s' : State} → Step s s' → Reach ratio children (plain s) → Reach ratio children (plain s')
  plain-Step {s} (go before a behind e rested alive own) reached =
      plain-go s before a behind e own reached
  plain-Step {s} (signal before a behind before' u behind' e rings e' dreams) reached =
      plain-same s (before' ++ wake u ∷ behind')
        (ap (map thread_of) e
          ∙ sym (threads-wake before a behind)
          ∙ ap (map thread_of) e'
          ∙ sym (threads-wake before' u behind'))
        reached
  plain-Step {s} (signal_nobody before a behind e rings nobody) reached =
      plain-same s (before ++ wake a ∷ behind)
        (ap (map thread_of) e ∙ sym (threads-wake before a behind)) reached

  plain-start : Reach ratio children (plain (start ratio children))
  unfolding Signals.start
  plain-start =
      subst
        (λ (ts : List Thread).
          Reach ratio children (record {
            kg = record { vt = 0; vc = 0; ratio = ratio };
            locked = false;
            threads = ts;
          }))
        (sym (threads-arrive (newcomers children))) Defs.start

  pub Run-Reach : {s : State} → Run ratio children s → Reach ratio children (plain s)
  Run-Reach begin = plain-start
  Run-Reach (step run next_step) = plain-Step next_step (Run-Reach run)
