-- ===== src/Exer4/Session/Protocol.antt =====
-- Each answer is that to the shell's request, and the scheduler comes to no other states than alone.
use cslab_os.Base.{some, none, ℕ, ◌⊎◌, inl, inr, ◌≡◌, refl, List, [], ◌∷◌, suc}
use cslab_os.Base.Int.{ℤ}
use cslab_os.Exer4.Os.{Outcome, Os, World, End, running, ended, Wait}
use cslab_os.Exer4.Safe.{Never, IsRefused, IsSafe, goes_on, refused, leaves, IsSafe-running}
use cslab_os.Exer4.Prio.Defs.{
  Vars, Request, process_request, handle, request, alarm_rang, child_changed, sigalrm_handler,
  sigchld_handler,
}
use cslab_os.Exer4.Prio.Invariant.{IsSound, Serves}
use cslab_os.Exer4.Prio.Create.{FreshChild}
use cslab_os.Exer4.Prio.Dispatch.{reply, process_request-Stable}
use cslab_os.Exer4.Prio.Main.{Reach, booted, after, Reach-IsSafe}
use cslab_os.Exer4.Cmdline.Defs.{RequestStruct}
use cslab_os.Exer4.Session
use cslab_os.Exer4.Session.{
  decode, Shell, prompting, awaiting, gone, Loop, reading, replying, given_up, State, state, Step,
  talk, ask, receive, leave, serve, cannot_reply, no_request, alarm, child, world_of, Run, begin,
  step,
}

-- What signals do to the scheduler.
pub data Signals (os : Os) (w : World Vars) : World Vars → Type 0 where
  quietly : Signals os w w
  alarmed :
      {w' w'' : World Vars}
      → Signals os w w'
      → sigalrm_handler os w' ≡ running tt w''
      → Signals os w w''
  changed :
      {w' w'' : World Vars} (ws : List Wait)
      → Signals os w w'
      → sigchld_handler os ws w' ≡ running tt w''
      → Signals os w w''

module _ (os : Os) where
  -- The scheduler has answered the request with that number, in the state that it was in then: it has
  -- come from there to its state `now` by serving the request, and by signals after that. The number is
  -- the one that the request deserved.
  pub record Answered (rq : RequestStruct) (ret : ℤ) (now : World Vars) : Type 0 where
    pub before : World Vars
    pub reached : Reach os before
    pub after_it : World Vars
    pub ran : process_request os (decode rq) before ≡ running ret after_it
    pub since : Signals os after_it now
    pub sound : IsSound before.vars
    pub serves : Serves before.vars
    pub right : ret ≡ reply os before sound serves (decode rq)

  answer :
      (rq : RequestStruct) {w w' : World Vars} {ret : ℤ}
      → process_request os (decode rq) w ≡ running ret w'
      → Reach os w
      → FreshChild os w
      → Answered rq ret w'
  answer rq {w} {w'} {ret} ran reached fresh =
      let (sound, serves) = (Reach-IsSafe os alarm_rang reached fresh).0 in
      record {
        before = w;
        reached = reached;
        after_it = w';
        ran = ran;
        since = quietly;
        sound = sound;
        serves = serves;
        right = (IsSafe-running (process_request-Stable os w sound serves (decode rq) fresh) ran).1;
      }

  -- At most one request is on its way, and the shell waits for its answer, or has exited meanwhile.
  pub data Exchange : Shell → Loop → List RequestStruct → List ℤ → World Vars → Type 0 where
    quiet : {w : World Vars} → Exchange prompting reading [] [] w
    asked : {w : World Vars} (rq : RequestStruct) → Exchange (awaiting rq) reading (rq ∷ []) [] w
    served :
        {w : World Vars} (rq : RequestStruct) (ret : ℤ)
        → Answered rq ret w
        → Exchange (awaiting rq) (replying rq ret) [] [] w
    answered :
        {w : World Vars} (rq : RequestStruct) (ret : ℤ)
        → Answered rq ret w
        → Exchange (awaiting rq) reading [] (ret ∷ []) w
    orphaned :
        {loop : Loop} {rqs : List RequestStruct} {rets : List ℤ} {w : World Vars}
        (rq : RequestStruct)
        → Exchange (awaiting rq) loop rqs rets w
        → Exchange gone loop rqs rets w
    left : {w : World Vars} → Exchange gone reading [] [] w
    over : {w : World Vars} → Exchange gone given_up [] [] w
    over_answered :
        {w : World Vars} (rq : RequestStruct) (ret : ℤ)
        → Answered rq ret w
        → Exchange gone given_up [] (ret ∷ []) w

  -- A signal changes nothing of the exchange.
  module _ {w w' : World Vars} (signal : (v : World Vars) → Signals os v w → Signals os v w') where
    Answered-signal : {rq : RequestStruct} {ret : ℤ} → Answered rq ret w → Answered rq ret w'
    Answered-signal a = record {
      before = a.before;
      reached = a.reached;
      after_it = a.after_it;
      ran = a.ran;
      since = signal a.after_it a.since;
      sound = a.sound;
      serves = a.serves;
      right = a.right;
    }

    Exchange-signal :
        {shell : Shell} {loop : Loop} {rqs : List RequestStruct} {rets : List ℤ}
        → Exchange shell loop rqs rets w
        → Exchange shell loop rqs rets w'
    Exchange-signal quiet = quiet
    Exchange-signal (asked rq) = asked rq
    Exchange-signal (served rq ret a) = served rq ret (Answered-signal a)
    Exchange-signal (answered rq ret a) = answered rq ret (Answered-signal a)
    Exchange-signal (orphaned rq ex) = orphaned rq (Exchange-signal ex)
    Exchange-signal left = left
    Exchange-signal over = over
    Exchange-signal (over_answered rq ret a) = over_answered rq ret (Answered-signal a)

  Exchange-leave :
      {shell : Shell} {loop : Loop} {rqs : List RequestStruct} {rets : List ℤ} {w : World Vars}
      → Exchange shell loop rqs rets w
      → Exchange gone loop rqs rets w
  Exchange-leave quiet = left
  Exchange-leave (asked rq) = orphaned rq (asked rq)
  Exchange-leave (served rq ret a) = orphaned rq (served rq ret a)
  Exchange-leave (answered rq ret a) = orphaned rq (answered rq ret a)
  Exchange-leave (orphaned rq ex) = orphaned rq ex
  Exchange-leave left = left
  Exchange-leave over = over
  Exchange-leave (over_answered rq ret a) = over_answered rq ret a

  -- What holds of a state.
  abbrev pub Sound : State → Type 0
  Sound (state input shell loop rqs rets w) = Exchange shell loop rqs rets w × Reach os w

  handled :
      (rq : Request) (w : World Vars) {w' : World Vars} {ret : ℤ}
      → process_request os rq w ≡ running ret w'
      → handle os (request rq) w ≡ running (some ret) w'
  unfolding handle
  handled rq w ran = rw ran refl

  alarm_handled :
      (w : World Vars) {w' : World Vars}
      → sigalrm_handler os w ≡ running tt w'
      → handle os alarm_rang w ≡ running none w'
  unfolding handle
  alarm_handled w ran = rw ran refl

  child_handled :
      (ws : List Wait) (w : World Vars) {w' : World Vars}
      → sigchld_handler os ws w ≡ running tt w'
      → handle os (child_changed ws) w ≡ running none w'
  unfolding handle
  child_handled ws w ran = rw ran refl

  Step-Sound : {s s' : State} → Step os s s' → FreshChild os (world_of s) → Sound s → Sound s'
  Step-Sound (talk read line) fresh (quiet, reached) = (quiet, reached)
  Step-Sound (ask rq read line) fresh (quiet, reached) = (asked rq, reached)
  Step-Sound receive fresh (answered rq ret a, reached) = (quiet, reached)
  Step-Sound leave fresh (ex, reached) = (Exchange-leave ex, reached)
  Step-Sound (serve {ret = ret} ran) fresh (asked rq, reached) = (
    served rq ret (answer rq ran reached fresh),
    after (request (decode rq)) reached fresh (handled (decode rq) _ ran),
  )
  Step-Sound (serve {ret = ret} ran) fresh (orphaned _ (asked rq), reached) = (
    orphaned rq (served rq ret (answer rq ran reached fresh)),
    after (request (decode rq)) reached fresh (handled (decode rq) _ ran),
  )
  Step-Sound Session.reply fresh (served rq ret a, reached) = (answered rq ret a, reached)
  Step-Sound Session.reply fresh (orphaned _ (served rq ret a), reached) =
      (orphaned rq (answered rq ret a), reached)
  Step-Sound cannot_reply fresh (orphaned _ (served rq ret a), reached) = (over, reached)
  Step-Sound no_request fresh (left, reached) = (over, reached)
  Step-Sound no_request fresh (orphaned _ (answered rq ret a), reached) =
      (over_answered rq ret a, reached)
  Step-Sound (alarm {w = w} ran) fresh (ex, reached) = (
    Exchange-signal (λ v since. alarmed since ran) ex,
    after alarm_rang reached fresh (alarm_handled w ran),
  )
  Step-Sound (child {w = w} ws ran) fresh (ex, reached) = (
    Exchange-signal (λ v since. changed ws since ran) ex,
    after (child_changed ws) reached fresh (child_handled ws w ran),
  )

  -- In every state that the shell and the scheduler come to together, when `fork` gives fresh pids: the
  -- scheduler is in a state that it comes to by requests and signals; at most one request or answer is
  -- on its way, for which the shell waits unless it has gone meanwhile; and an answer on its way is the
  -- one that the request deserved in the state in which the scheduler served it, from which the
  -- scheduler has come to its present state by serving that request and by signals alone.
  pub Run-Sound : {s : State} → Run os s → Sound s
  Run-Sound (begin input pipes names reports fresh ran) =
      (quiet, booted pipes names reports fresh ran)
  Run-Sound (step run fresh next) = Step-Sound next fresh (Run-Sound run)

  -- How far the request of a shell that waits has come, up to the prompt after its answer.
  abbrev pub stage : State → ℕ
  stage (state input (awaiting rq) reading rqs [] w) = 0
  stage (state input (awaiting rq) (replying _ _) rqs rets w) = 1
  stage (state input (awaiting rq) reading rqs (ret ∷ rets) w) = 2
  stage (state input (awaiting rq) given_up rqs rets w) = 0
  stage (state input prompting loop rqs rets w) = 3
  stage (state input gone loop rqs rets w) = 0

  abbrev pub CanAdvance : State → Type 0
  CanAdvance s = (s' : State) × Step os s s' × (stage s' ≡ suc (stage s))

  -- To serve the request ends the program, because the system refuses a call.
  abbrev pub Refuses : RequestStruct → World Vars → Type 0
  Refuses rq w =
      (e : End) × (w' : World Vars) × (process_request os (decode rq) w ≡ ended e w')
      × IsRefused os w' e

  serve_or_end :
      (input : List ℕ) (rq : RequestStruct) (w : World Vars) {P : ℤ → World Vars → Type 0}
      (r : Outcome Vars ℤ)
      → process_request os (decode rq) w ≡ r
      → IsSafe os Never P r
      → CanAdvance (state input (awaiting rq) reading (rq ∷ []) [] w) ⊎ Refuses rq w
  serve_or_end input rq w _ ran (goes_on p) = inl (_, serve ran, refl)
  serve_or_end input rq w _ ran (refused x) = inr (_, _, ran, x)
  serve_or_end input rq w _ ran (leaves x) = elim x [ ]

  Exchange-CanAdvance :
      (input : List ℕ) {rq : RequestStruct} {loop : Loop} {rqs : List RequestStruct} {rets : List ℤ}
      (w : World Vars)
      → Exchange (awaiting rq) loop rqs rets w
      → Reach os w
      → FreshChild os w
      → CanAdvance (state input (awaiting rq) loop rqs rets w)
        ⊎ ((loop ≡ reading) × (rqs ≡ rq ∷ []) × (rets ≡ []) × Refuses rq w)
  Exchange-CanAdvance input w (asked rq) reached fresh =
      let (sound, serves) = (Reach-IsSafe os alarm_rang reached fresh).0 in
      elim (serve_or_end input rq w _ refl
        (process_request-Stable os w sound serves (decode rq) fresh)) [
          | inl goes ↦ inl goes
          | inr refuses ↦ inr (refl, refl, refl, refuses)
        ]
  Exchange-CanAdvance input w (served _ ret ans) reached fresh = inl (_, Session.reply, refl)
  Exchange-CanAdvance input w (answered _ ret ans) reached fresh = inl (_, receive, refl)

  -- While the shell waits for an answer, and `fork` gives fresh pids: the next step of its request can be
  -- taken (the scheduler serves it, then answers, then the shell reads the answer and prompts again); or
  -- the request is still in its pipe, with no answer under way, and to serve it now ends the scheduler,
  -- because the system refuses a call.
  pub Run-CanAdvance :
      {input : List ℕ} {rq : RequestStruct} {loop : Loop} {rqs : List RequestStruct} {rets : List ℤ}
      {w : World Vars}
      → Run os (state input (awaiting rq) loop rqs rets w)
      → FreshChild os w
      → CanAdvance (state input (awaiting rq) loop rqs rets w)
        ⊎ ((loop ≡ reading) × (rqs ≡ rq ∷ []) × (rets ≡ []) × Refuses rq w)
  Run-CanAdvance {input} {w = w} run fresh =
      let (ex, reached) = Run-Sound run in Exchange-CanAdvance input w ex reached fresh
