-- ===== src/Exer2/ForkTree/Shape.antt =====
-- The processes have the shape of the tree.
use cslab_os.Base.{ℕ, List, ◌≡◌, refl, sym, subst}
use cslab_os.Exer2.Tree.{Tree, node, Forest, nil, cons}
use cslab_os.Exer2.ForkTree.{
  Proc, unborn, forking, waiting, sleeping, exited, reaped, Procs, none, more, snoc, Reaps, this,
  later, AllReaped, nobody, also, Step, leaf, inner, fork, fork_fails, forked, wait, finish, wake,
  while_forking, while_waiting, after_exit, after_wait, StepAny, here, there, Run, begin, step,
}

-- The process of a node: its children are those of the node's subtrees, in their order. With status 9 it
-- has waited for all of them; with status 1 a `fork` failed, and only the first ones are there.
mutual
  pub data Of : Tree → Proc → Type 0 where
    not_yet : {t : Tree} → Of t (unborn t)
    still_forking :
        {name : List ℕ} {ts left : Forest} {ps : Procs}
        → Made ts ps left
        → Of (node name ts) (forking ps left)
    in_wait :
        {name : List ℕ} {ts : Forest} {ps : Procs} → Made ts ps nil → Of (node name ts) (waiting ps)
    in_sleep : {name : List ℕ} → Of (node name nil) sleeping
    done :
        {name : List ℕ} {ts : Forest} {ps : Procs}
        → Made ts ps nil
        → AllReaped ps
        → Of (node name ts) (exited 9 ps)
    failed :
        {name : List ℕ} {ts left : Forest} {t : Tree} {ps : Procs}
        → Made ts ps (cons t left)
        → Of (node name ts) (exited 1 ps)
    seen_done :
        {name : List ℕ} {ts : Forest} {ps : Procs}
        → Made ts ps nil
        → AllReaped ps
        → Of (node name ts) (reaped 9 ps)
    seen_failed :
        {name : List ℕ} {ts left : Forest} {t : Tree} {ps : Procs}
        → Made ts ps (cons t left)
        → Of (node name ts) (reaped 1 ps)

  -- The first trees have a process each, and the rest is left.
  pub data Made : Forest → Procs → Forest → Type 0 where
    rest : {ts : Forest} → Made ts none ts
    one :
        {t : Tree} {p : Proc} {ts left : Forest} {ps : Procs}
        → Of t p
        → Made ts ps left
        → Made (cons t ts) (more p ps) left

Made-snoc :
    {ts : Forest} {ps : Procs} {t : Tree} {left : Forest}
    → Made ts ps (cons t left)
    → Made ts (snoc ps (unborn t)) left
unfolding snoc
Made-snoc rest = one not_yet rest
Made-snoc (one o m) = one o (Made-snoc m)

Of-reaped : {t : Tree} {status : ℕ} {ps : Procs} → Of t (exited status ps) → Of t (reaped status ps)
Of-reaped (done m all) = seen_done m all
Of-reaped (failed m) = seen_failed m

Reaps-Made : {ts left : Forest} {ps ps' : Procs} → Reaps ps ps' → Made ts ps left → Made ts ps' left
Reaps-Made this (one o m) = one (Of-reaped o) m
Reaps-Made (later r) (one o m) = one o (Reaps-Made r m)

-- A child whose status was read stays so, whatever is still below it.
Step-reaped :
    {status : ℕ} {qs : Procs} {p : Proc}
    → Step (reaped status qs) p
    → (qs' : Procs) × (p ≡ reaped status qs')
Step-reaped (after_wait {ps' = qs'} s) = (qs', refl)

AllReaped-StepAny : {ps ps' : Procs} → StepAny ps ps' → AllReaped ps → AllReaped ps'
AllReaped-StepAny (here {ps = ps} s) (also all) =
    let (qs', e) = Step-reaped s in subst (λ p. AllReaped (more p ps)) (sym e) (also all)
AllReaped-StepAny (there s) (also all) = also (AllReaped-StepAny s all)

mutual
  Step-Of : {t : Tree} {p p' : Proc} → Step p p' → Of t p → Of t p'
  Step-Of (leaf name) not_yet = in_sleep
  Step-Of (inner name t ts) not_yet = still_forking rest
  Step-Of (fork ps t ts) (still_forking m) = still_forking (Made-snoc m)
  Step-Of (fork_fails ps t ts) (still_forking m) = failed m
  Step-Of (forked ps) (still_forking m) = in_wait m
  Step-Of (wait r) (in_wait m) = in_wait (Reaps-Made r m)
  Step-Of (finish all) (in_wait m) = done m all
  Step-Of wake in_sleep = done rest nobody
  Step-Of (while_forking s) (still_forking m) = still_forking (StepAny-Made s m)
  Step-Of (while_waiting s) (in_wait m) = in_wait (StepAny-Made s m)
  Step-Of (after_exit s) (done m all) = done (StepAny-Made s m) (AllReaped-StepAny s all)
  Step-Of (after_exit s) (failed m) = failed (StepAny-Made s m)
  Step-Of (after_wait s) (seen_done m all) = seen_done (StepAny-Made s m) (AllReaped-StepAny s all)
  Step-Of (after_wait s) (seen_failed m) = seen_failed (StepAny-Made s m)

  StepAny-Made :
      {ts left : Forest} {ps ps' : Procs} → StepAny ps ps' → Made ts ps left → Made ts ps' left
  StepAny-Made (here s) (one o m) = one (Step-Of s o) m
  StepAny-Made (there s) (one o m) = one o (StepAny-Made s m)

-- In whatever order the processes run, and whichever `fork` fails: each process that was started is that
-- of a node, with the processes of the node's subtrees below it in order. One that exited with status 9
-- has a process for every subtree and has waited for all of them; one that exited with status 1 is one
-- whose `fork` failed.
pub Run-Of : {root : Tree} {k : ℕ} {p : Proc} → Run root k p → Of root p
Run-Of begin = not_yet
Run-Of (step run s) = Step-Of s (Run-Of run)
