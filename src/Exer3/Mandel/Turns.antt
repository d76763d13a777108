-- ===== src/Exer3/Mandel/Turns.antt =====
-- exer3/mandel/mandel.c: the threads, and their turns at the output by a ring of semaphores.
use cslab_os.Base.{ℕ, zero, suc, ◌+◌, ◌%◌, ◌==◌, ◌<◌, ◌≡◌, ltb, List, [], ◌∷◌, ◌++◌, if◌then◌else◌}
use cslab_os.Exer3.Mandel.Output.{x_chars}
pub mod Rows
pub mod Order
pub mod Picture
pub mod Ends
mod Tests

abbrev pub y_chars : ℕ
y_chars = 50

-- The writes of a line: a point for each column, and the newline.
abbrev pub width : ℕ
width = x_chars + 1

-- Where a thread stands in `thread_func`, with the line that is its `i`: at the head of the loop, before
-- `sem_wait`, or in `output_mandel_line`, with the number of columns written.
pub data Place : Type 0 where
  head waits : ℕ → Place
  prints : ℕ → ℕ → Place

-- `output` has the line and the column of everything written.
pub record State : Type 0 where
  pub sems : ℕ → ℕ
  pub places : ℕ → Place
  pub output : List (ℕ × ℕ)

unfoldable pub update : {A : Type 0} → (ℕ → A) → ℕ → A → ℕ → A
update f i a j = if j == i then a else f j

-- One step of the thread `idx` of `nthreads`. `lines` is `y_chars` in mandel.c.
pub data Step (lines nthreads : ℕ) (s : State) : State → Type 0 where
  compute :
      (idx i : ℕ)
      → idx < nthreads
      → s.places idx ≡ head i
      → i < lines
      → Step lines nthreads s (record s { places = update s.places idx (waits i) })
  wait :
      (idx i k : ℕ)
      → idx < nthreads
      → s.places idx ≡ waits i
      → s.sems (idx % nthreads) ≡ suc k
      → Step lines nthreads s (record s {
        sems = update s.sems (idx % nthreads) k;
        places = update s.places idx (prints i 0);
      })
  print :
      (idx i n : ℕ)
      → idx < nthreads
      → s.places idx ≡ prints i n
      → n < width
      → Step lines nthreads s (record s {
        places = update s.places idx (prints i (n + 1));
        output = s.output ++ (i, n) ∷ [];
      })
  post :
      (idx i : ℕ)
      → idx < nthreads
      → s.places idx ≡ prints i width
      → Step lines nthreads s (record s {
        sems = update s.sems ((idx + 1) % nthreads) (suc (s.sems ((idx + 1) % nthreads)));
        places = update s.places idx (head (i + nthreads));
      })

-- `main` after the creation of the threads and the semaphores, and `sem_post(&sems[0])`.
unfoldable pub start : State
start = record { sems = update (λ i. 0) 0 1; places = head; output = [] }

pub data Reach (lines nthreads : ℕ) : State → Type 0 where
  begin : Reach lines nthreads start
  step :
      {s s' : State} → Reach lines nthreads s → Step lines nthreads s s' → Reach lines nthreads s'
