-- ===== src/Exer3/Kgarten/Signals/Progress.antt =====
-- The threads never all sleep.
use cslab_os.Base.{
  ℕ, ◌<◌, ◌≡◌, refl, sym, ap, ◌∙◌, Bool, true, false, not, List, ◌∷◌, ◌++◌, count, count-split,
  arith, ◌⊎◌, inl, inr, Bool-cases,
}
use cslab_os.Exer3.Kgarten.Local.{bit, has_failed}
use cslab_os.Exer3.Kgarten.Safety.{InRange, IsSound, has_mutex, failed_thread, Reach-IsSound}
use cslab_os.Exer3.Kgarten.Signals.{
  Note, awake, due, asleep, Actor, State, sleeps, sleeper, wake, Step, go, signal, signal_nobody,
  Run,
}
use cslab_os.Exer3.Kgarten.Signals.Refines.{plain, Run-Reach}
use cslab_os.Exer3.Kgarten.Signals.Asleep.{at_odds-holds, wakeful, count-thread_of}
use cslab_os.Exer3.Kgarten.Signals.Lively.{IsLively, zero_or_more, odd-at, Run-IsLively}
use cslab_os.Exer3.Kgarten.Signals.Last.{count-actors}

-- Some thread has a step to take: it goes on, or calls `pthread_cond_signal`.
abbrev pub CanStep : State → Type 0
CanStep s = (s' : State) × Step s s'

-- No thread passes a test that none passes.
nowhere :
    (u : Actor → Bool) (s : State) (before : List Actor) (a : Actor) (behind : List Actor)
    → s.actors ≡ before ++ a ∷ behind
    → count u s.actors ≡ 0
    → u a ≡ false
nowhere u s before a behind e none = elim (Bool-cases (u a)) [
  | inl passes ↦
      absurd (omega (arith, none, ap (count u) e, count-actors u before behind a, ap bit passes))
  | inr fails ↦ fails
]

alive :
    (s : State) (before : List Actor) (a : Actor) (behind : List Actor)
    → s.actors ≡ before ++ a ∷ behind
    → IsSound (plain s)
    → has_failed a.thread.place ≡ false
alive s before a behind e sound =
    nowhere (λ (b : Actor). failed_thread b.thread) s before a behind e
      (sym (count-thread_of failed_thread s.actors) ∙ sound.fine)

-- The thread that has the mutex can go on.
holder : (s : State) → IsSound (plain s) → IsLively s → s.locked ≡ true → CanStep s
holder s sound lively taken =
    let mutex = λ (b : Actor). has_mutex b.thread in
    let positive : 0 < count mutex s.actors =
      omega (arith, sound.one, ap bit taken, count-thread_of has_mutex s.actors) in
    let (before, a, behind, e, own) = count-split mutex s.actors positive in
    let fine = odd-at s before a behind e lively in
    (
      _,
      go before a behind e (at_odds-holds a.thread.is_child a.thread.place a.note fine own)
          (alive s before a behind e sound) (own ∙ sym taken),
    )

rings :
    (s : State) (before : List Actor) (a : Actor) (behind : List Actor)
    → s.actors ≡ before ++ a ∷ behind
    → a.note ≡ due
    → CanStep s
unfolding sleeps
rings s before a behind e here = elim (zero_or_more (count sleeper s.actors)) [
  | inr nobody ↦ (_, signal_nobody before a behind e here nobody)
  | inl more ↦
      let still : 0 < count sleeper (before ++ wake a ∷ behind) = omega (
        arith,
        more,
        ap (count sleeper) e,
        count-actors sleeper before behind a,
        count-actors sleeper before behind (wake a),
        ap (λ n. bit (sleeps n)) here,
      ) in
      let (before', u, behind', e', dreams) =
        count-split sleeper (before ++ wake a ∷ behind) still in
      (_, signal before a behind before' u behind' e here e' (dreaming u.note dreams))
]
  where
    dreaming : (n : Note) → sleeps n ≡ true → n ≡ asleep
    dreaming asleep h = refl
    dreaming awake h = absurd cc
    dreaming due h = absurd cc

awake_or_due : (n : Note) → not (sleeps n) ≡ true → (n ≡ awake) ⊎ (n ≡ due)
unfolding sleeps
awake_or_due awake h = inl refl
awake_or_due due h = inr refl
awake_or_due asleep h = absurd cc

-- While the mutex is free, a thread that is awake takes it or sends its signal.
taker : (s : State) → IsSound (plain s) → IsLively s → s.locked ≡ false → CanStep s
taker s sound lively unlocked =
    let mutex = λ (b : Actor). has_mutex b.thread in
    let (before, a, behind, e, up) = count-split wakeful s.actors lively.some_awake in
    let none : count mutex s.actors ≡ 0 =
      sym (count-thread_of has_mutex s.actors) ∙ omega (arith, sound.one, ap bit unlocked) in
    let own = nowhere mutex s before a behind e none in
    elim (awake_or_due a.note up) [
      | inl rested ↦
          (_, go before a behind e rested (alive s before a behind e sound) (own ∙ sym unlocked))
      | inr waking ↦ rings s before a behind e waking
    ]

-- When neither the number of the threads plus 1 nor its product with the ratio is beyond an `int`, the
-- ratio is at least 1 and there is at least one teacher, where a thread that waits wakes only when a
-- signal wakes it, and in whatever order the threads run: in every state that is reached some thread can
-- go on, so that never all of them sleep.
pub Run-CanStep :
    (ratio : ℕ) (children : List Bool) {s : State}
    → InRange ratio children
    → 0 < ratio
    → 0 < count not children
    → Run ratio children s
    → CanStep s
Run-CanStep ratio children {s} range strict teachers run =
    let sound = Reach-IsSound ratio children range (Run-Reach ratio children run) in
    let lively = Run-IsLively ratio children range strict teachers run in
    elim (Bool-cases s.locked) [
      | inl taken ↦ holder s sound lively taken
      | inr unlocked ↦ taker s sound lively unlocked
    ]
