-- ===== src/Exer2/ForkTree.antt =====
-- exer2/ask2-tree/ask2-tree.c: a tree of processes that start their children, wait for them and exit.
use cslab_os.Base.{ℕ, suc, ◌+◌, ◌≡◌, List}
use cslab_os.Exer2.Tree.{Tree, node, Forest, nil, cons}
pub mod Shape
pub mod Ends
mod Tests

-- A process in `fork_procs`, with those that it started: before the call, in the loop of `fork` with the
-- nodes that are left, in the loop of `wait`, in `sleep`, exited with a status, and exited with its
-- status read by its parent's `wait`.
mutual
  pub data Proc : Type 0 where
    unborn : Tree → Proc
    forking : Procs → Forest → Proc
    waiting : Procs → Proc
    sleeping : Proc
    exited reaped : ℕ → Procs → Proc

  pub data Procs : Type 0 where
    none : Procs
    more : Proc → Procs → Procs

unfoldable pub snoc : Procs → Proc → Procs
snoc none q = more q none
snoc (more p ps) q = more p (snoc ps q)

-- `wait` takes any child that has exited.
pub data Reaps : Procs → Procs → Type 0 where
  this :
      {status : ℕ} {qs ps : Procs} → Reaps (more (exited status qs) ps) (more (reaped status qs) ps)
  later : {p : Proc} {ps ps' : Procs} → Reaps ps ps' → Reaps (more p ps) (more p ps')

pub data AllReaped : Procs → Type 0 where
  nobody : AllReaped none
  also : {status : ℕ} {qs ps : Procs} → AllReaped ps → AllReaped (more (reaped status qs) ps)

mutual
  pub data Step : Proc → Proc → Type 0 where
    leaf : (name : List ℕ) → Step (unborn (node name nil)) sleeping
    inner :
        (name : List ℕ) (t : Tree) (ts : Forest)
        → Step (unborn (node name (cons t ts))) (forking none (cons t ts))
    fork :
        (ps : Procs) (t : Tree) (ts : Forest)
        → Step (forking ps (cons t ts)) (forking (snoc ps (unborn t)) ts)
    -- The children that are there go on.
    fork_fails : (ps : Procs) (t : Tree) (ts : Forest) → Step (forking ps (cons t ts)) (exited 1 ps)
    forked : (ps : Procs) → Step (forking ps nil) (waiting ps)
    wait : {ps ps' : Procs} → Reaps ps ps' → Step (waiting ps) (waiting ps')
    -- `wait` has returned once for each child.
    finish : {ps : Procs} → AllReaped ps → Step (waiting ps) (exited 9 ps)
    wake : Step sleeping (exited 9 none)
    while_forking :
        {ps ps' : Procs} {left : Forest}
        → StepAny ps ps'
        → Step (forking ps left) (forking ps' left)
    while_waiting : {ps ps' : Procs} → StepAny ps ps' → Step (waiting ps) (waiting ps')
    after_exit :
        {status : ℕ} {ps ps' : Procs} → StepAny ps ps' → Step (exited status ps) (exited status ps')
    after_wait :
        {status : ℕ} {ps ps' : Procs} → StepAny ps ps' → Step (reaped status ps) (reaped status ps')

  pub data StepAny : Procs → Procs → Type 0 where
    here : {p p' : Proc} {ps : Procs} → Step p p' → StepAny (more p ps) (more p' ps)
    there : {p : Proc} {ps ps' : Procs} → StepAny ps ps' → StepAny (more p ps) (more p ps')

-- So many steps after `main` has started the root.
pub data Run (root : Tree) : ℕ → Proc → Type 0 where
  begin : Run root 0 (unborn root)
  step : {k : ℕ} {p p' : Proc} → Run root k p → Step p p' → Run root (suc k) p'
