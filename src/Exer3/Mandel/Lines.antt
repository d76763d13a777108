-- ===== src/Exer3/Mandel/Lines.antt =====
-- exer3/mandel/mandel2.c: the threads, which first compute all their lines and then take turns at the
-- output, as those of mandel.c do.
use cslab_os.Base.{ℕ, zero, suc, ◌+◌, ◌-◌, ◌*◌, ◌/◌, ◌%◌, ◌<◌, ◌≡◌, List, [], ◌∷◌, ◌++◌}
use cslab_os.Exer3.Mandel.Turns.{y_chars, width, update}
pub mod Refines
pub mod Progress
mod Tests

-- ceil((float)y_chars/NTHREADS)
unfoldable pub size : ℕ → ℕ
size nthreads = (y_chars + nthreads - 1) / nthreads

-- Where a thread stands in `thread_func`: in the first loop, with the number of lines computed, at the
-- head of the second loop, with its `i`, or in `output_mandel_line`, with the number of columns written.
pub data Place : Type 0 where
  computes outputs : ℕ → Place
  prints : ℕ → ℕ → Place

pub record State : Type 0 where
  pub sems : ℕ → ℕ
  pub places : ℕ → Place
  pub output : List (ℕ × ℕ)

-- `next` of the thread `idx` in round `i`.
unfoldable pub line_of : (nthreads idx i : ℕ) → ℕ
line_of nthreads idx i = idx + i * nthreads

-- One step of the thread `idx` of `nthreads`.
pub data Step (nthreads : ℕ) (s : State) : State → Type 0 where
  compute :
      (idx i : ℕ)
      → idx < nthreads
      → s.places idx ≡ computes i
      → i < size nthreads
      → Step nthreads s (record s { places = update s.places idx (computes (i + 1)) })
  computed :
      (idx : ℕ)
      → idx < nthreads
      → s.places idx ≡ computes (size nthreads)
      → Step nthreads s (record s { places = update s.places idx (outputs 0) })
  wait :
      (idx i k : ℕ)
      → idx < nthreads
      → s.places idx ≡ outputs i
      → i < size nthreads
      → s.sems (idx % nthreads) ≡ suc k
      → Step nthreads s (record s {
        sems = update s.sems (idx % nthreads) k;
        places = update s.places idx (prints i 0);
      })
  print :
      (idx i n : ℕ)
      → idx < nthreads
      → s.places idx ≡ prints i n
      → n < width
      → Step nthreads s (record s {
        places = update s.places idx (prints i (n + 1));
        output = s.output ++ (line_of nthreads idx i, n) ∷ [];
      })
  post :
      (idx i : ℕ)
      → idx < nthreads
      → s.places idx ≡ prints i width
      → Step nthreads s (record s {
        sems = update s.sems ((idx + 1) % nthreads) (suc (s.sems ((idx + 1) % nthreads)));
        places = update s.places idx (outputs (i + 1));
      })

-- `main` after the creation of the threads and the semaphores, and `sem_post(&sems[0])`.
unfoldable pub start : State
start = record { sems = update (λ i. 0) 0 1; places = λ idx. computes 0; output = [] }

pub data Run (nthreads : ℕ) : State → Type 0 where
  begin : Run nthreads start
  step : {s s' : State} → Run nthreads s → Step nthreads s s' → Run nthreads s'
