-- ===== src/Exer2/Signals.antt =====
-- exer2/ask2-signals/ask2-signals.c: a tree of processes that stop, and are continued one by one. Every
-- `malloc` and `fork` succeeds here.
use cslab_os.Base.{ℕ, ◌≡◌, List, [], ◌∷◌, ◌++◌}
use cslab_os.Exer2.Tree.{Tree, node, Forest, nil, cons}
pub mod Steps
pub mod Order
mod Tests

-- The process of a node and those below it: it has not started, it creates its children and waits until
-- they have stopped, it has stopped with all below it, it was continued and continues its children, or
-- it has exited.
mutual
  pub data Proc : Type 0 where
    unborn stopped exited : Tree → Proc
    creating awake : List ℕ → Procs → Proc

  pub data Procs : Type 0 where
    none : Procs
    more : Proc → Procs → Procs

abbrev pub all_unborn : Forest → Procs
all_unborn nil = none
all_unborn (cons t ts) = more (unborn t) (all_unborn ts)

abbrev pub all_stopped : Forest → Procs
all_stopped nil = none
all_stopped (cons t ts) = more (stopped t) (all_stopped ts)

abbrev pub all_exited : Forest → Procs
all_exited nil = none
all_exited (cons t ts) = more (exited t) (all_exited ts)

-- The steps until SIGSTOP, with the names that are printed as starting. The children run at once.
mutual
  pub data Starts : Proc → List (List ℕ) → Proc → Type 0 where
    start :
        (name : List ℕ) (ts : Forest)
        → Starts (unborn (node name ts)) (name ∷ []) (creating name (all_unborn ts))
    create :
        (name : List ℕ) {ps ps' : Procs} {log : List (List ℕ)}
        → StartsAny ps log ps'
        → Starts (creating name ps) log (creating name ps')
    stop :
        (name : List ℕ) (ts : Forest) {ps : Procs}
        → ps ≡ all_stopped ts
        → Starts (creating name ps) [] (stopped (node name ts))

  pub data StartsAny : Procs → List (List ℕ) → Procs → Type 0 where
    here :
        {p p' : Proc} {ps : Procs} {log : List (List ℕ)}
        → Starts p log p'
        → StartsAny (more p ps) log (more p' ps)
    there :
        {p : Proc} {ps ps' : Procs} {log : List (List ℕ)}
        → StartsAny ps log ps'
        → StartsAny (more p ps) log (more p ps')

-- The steps from SIGCONT on, with the names that are printed as awake. A child is continued when those
-- before it have exited.
mutual
  pub data Runs : Proc → List (List ℕ) → Proc → Type 0 where
    wake :
        (name : List ℕ) (ts : Forest)
        → Runs (stopped (node name ts)) (name ∷ []) (awake name (all_stopped ts))
    child :
        (name : List ℕ) {ps ps' : Procs} {log : List (List ℕ)}
        → RunsFirst ps log ps'
        → Runs (awake name ps) log (awake name ps')
    exit :
        (name : List ℕ) (ts : Forest) {ps : Procs}
        → ps ≡ all_exited ts
        → Runs (awake name ps) [] (exited (node name ts))

  pub data RunsFirst : Procs → List (List ℕ) → Procs → Type 0 where
    first :
        {p p' : Proc} {ps : Procs} {log : List (List ℕ)}
        → Runs p log p'
        → RunsFirst (more p ps) log (more p' ps)
    next :
        {t : Tree} {ps ps' : Procs} {log : List (List ℕ)}
        → RunsFirst ps log ps'
        → RunsFirst (more (exited t) ps) log (more (exited t) ps')

-- `main`: the root starts, and is continued when it has stopped.
pub data Run (root : Tree) : List (List ℕ) → List (List ℕ) → Proc → Type 0 where
  fork : Run root [] [] (unborn root)
  starting :
      {p p' : Proc} {started log : List (List ℕ)}
      → Run root started [] p
      → Starts p log p'
      → Run root (started ++ log) [] p'
  running :
      {p p' : Proc} {started woken log : List (List ℕ)}
      → Run root started woken p
      → Runs p log p'
      → Run root started (woken ++ log) p'
