-- ===== src/Exer2/ForkTree/Ends.antt =====
-- The processes all end: there is a next step while the root has not exited, and the steps are bounded.
use cslab_os.Base.{ℕ, ◌+◌, ◌≤◌, ◌<◌, ◌≡◌, arith, ◌⊎◌, inl, inr}
use cslab_os.Exer2.Tree.{Tree, node, Forest, nil, cons}
use cslab_os.Exer2.ForkTree.{
  Proc, unborn, forking, waiting, sleeping, exited, reaped, Procs, none, more, snoc, Reaps, this,
  later, AllReaped, nobody, also, Step, leaf, inner, fork, fork_fails, forked, wait, finish, wake,
  while_forking, while_waiting, after_exit, after_wait, StepAny, here, there, Run, begin, step,
}
use cslab_os.Exer2.ForkTree.Shape.{
  Of, not_yet, still_forking, in_wait, in_sleep, done, failed, seen_done, seen_failed, Made, rest,
  one, Run-Of,
}

-- A process that has exited, whether its status was read or not.
pub data Ended : Proc → Type 0 where
  ended : (status : ℕ) (ps : Procs) → Ended (exited status ps)
  was_seen : (status : ℕ) (ps : Procs) → Ended (reaped status ps)

abbrev pub CanGo : Proc → Type 0
CanGo p = (p' : Proc) × Step p p'

-- What the children of a waiting process allow.
data Next (ps : Procs) : Type 0 where
  goes : {ps' : Procs} → StepAny ps ps' → Next ps
  reaps : {ps' : Procs} → Reaps ps ps' → Next ps
  all : AllReaped ps → Next ps

Next-there :
    {p : Proc} {ps : Procs} → Next ps → ((AllReaped ps) → AllReaped (more p ps)) → Next (more p ps)
Next-there (goes s) rest_of = goes (there s)
Next-there (reaps r) rest_of = reaps (later r)
Next-there (all a) rest_of = all (rest_of a)

Next-waiting : {ps : Procs} → Next ps → CanGo (waiting ps)
Next-waiting (goes s) = (_, while_waiting s)
Next-waiting (reaps r) = (_, wait r)
Next-waiting (all a) = (_, finish a)

mutual
  Of-Next : {t : Tree} {p : Proc} {ps : Procs} → Of t p → Next ps → Next (more p ps)
  Of-Next (not_yet {t = node name nil}) n = goes (here (leaf name))
  Of-Next (not_yet {t = node name (cons t ts)}) n = goes (here (inner name t ts))
  Of-Next (still_forking {left = nil} {ps = qs} m) n = goes (here (forked qs))
  Of-Next (still_forking {left = cons t ts} {ps = qs} m) n = goes (here (fork qs t ts))
  Of-Next (in_wait m) n = goes (here (Next-waiting (Made-Next m)).1)
  Of-Next in_sleep n = goes (here wake)
  Of-Next (done m a) n = reaps this
  Of-Next (failed m) n = reaps this
  Of-Next (seen_done m a) n = Next-there n also
  Of-Next (seen_failed m) n = Next-there n also

  Made-Next : {ts left : Forest} {ps : Procs} → Made ts ps left → Next ps
  Made-Next rest = all nobody
  Made-Next (one o m) = Of-Next o (Made-Next m)

Of-CanGo : {t : Tree} {p : Proc} → Of t p → CanGo p ⊎ Ended p
Of-CanGo (not_yet {t = node name nil}) = inl (_, leaf name)
Of-CanGo (not_yet {t = node name (cons t ts)}) = inl (_, inner name t ts)
Of-CanGo (still_forking {left = nil} {ps = qs} m) = inl (_, forked qs)
Of-CanGo (still_forking {left = cons t ts} {ps = qs} m) = inl (_, fork qs t ts)
Of-CanGo (in_wait m) = inl (Next-waiting (Made-Next m))
Of-CanGo in_sleep = inl (_, wake)
Of-CanGo (done {ps = qs} m a) = inr (ended 9 qs)
Of-CanGo (failed {ps = qs} m) = inr (ended 1 qs)
Of-CanGo (seen_done {ps = qs} m a) = inr (was_seen 9 qs)
Of-CanGo (seen_failed {ps = qs} m) = inr (was_seen 1 qs)

-- The steps that a node takes, and those that are left of them.
unfoldable mutual
  pub cost : Tree → ℕ
  cost (node name ts) = 4 + costs ts

  costs : Forest → ℕ
  costs nil = 0
  costs (cons t ts) = 1 + cost t + costs ts

unfoldable mutual
  steps : Proc → ℕ
  steps (unborn t) = cost t
  steps (forking ps left) = 3 + steps_all ps + costs left
  steps (waiting ps) = 2 + steps_all ps
  steps sleeping = 2
  steps (exited status ps) = 1 + steps_all ps
  steps (reaped status ps) = steps_all ps

  steps_all : Procs → ℕ
  steps_all none = 0
  steps_all (more p ps) = steps p + steps_all ps

steps_all-snoc : (ps : Procs) (p : Proc) → steps_all (snoc ps p) ≡ steps_all ps + steps p
unfolding snoc steps_all
steps_all-snoc none p = omega arith
steps_all-snoc (more q ps) p = omega (arith, steps_all-snoc ps p)

Reaps-fewer : {ps ps' : Procs} → Reaps ps ps' → steps_all ps' < steps_all ps
unfolding steps_all steps
Reaps-fewer this = omega arith
Reaps-fewer (later r) = omega (arith, Reaps-fewer r)

mutual
  unfolding steps steps_all cost costs

  Step-fewer : {p p' : Proc} → Step p p' → steps p' < steps p
  Step-fewer (leaf name) = omega arith
  Step-fewer (inner name t ts) = omega arith
  Step-fewer (fork ps t ts) = omega (arith, steps_all-snoc ps (unborn t))
  Step-fewer (fork_fails ps t ts) = omega arith
  Step-fewer (forked ps) = omega arith
  Step-fewer (wait r) = omega (arith, Reaps-fewer r)
  Step-fewer (finish a) = omega arith
  Step-fewer wake = omega arith
  Step-fewer (while_forking s) = omega (arith, StepAny-fewer s)
  Step-fewer (while_waiting s) = omega (arith, StepAny-fewer s)
  Step-fewer (after_exit s) = omega (arith, StepAny-fewer s)
  Step-fewer (after_wait s) = omega (arith, StepAny-fewer s)

  StepAny-fewer : {ps ps' : Procs} → StepAny ps ps' → steps_all ps' < steps_all ps
  StepAny-fewer (here s) = omega (arith, Step-fewer s)
  StepAny-fewer (there s) = omega (arith, StepAny-fewer s)

Run-fewer : {root : Tree} {k : ℕ} {p : Proc} → Run root k p → k + steps p ≤ cost root
unfolding steps
Run-fewer begin = omega arith
Run-fewer (step run s) = omega (arith, Run-fewer run, Step-fewer s)

-- In whatever order the processes run, and whichever `fork` fails: the root has exited or some process of
-- the tree can take a step, and after `k` steps `k` is at most `cost root`, which counts five for each
-- node but four for the root.
pub Run-Ended :
    {root : Tree} {k : ℕ} {p : Proc} → Run root k p → (CanGo p ⊎ Ended p) × (k ≤ cost root)
Run-Ended run = (Of-CanGo (Run-Of run), omega (arith, Run-fewer run))
