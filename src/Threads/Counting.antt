-- ===== src/Threads/Counting.antt =====
-- scheduling/threads/thread_fairness.c: threads count until `main` sets a flag. A thread's test of
-- the flag and its increment are two steps, and it may be created while `main` still creates
-- others.
pub mod Counts
pub mod Settling
use microkernel_benchmark.Prelude.{
  ℕ, ◌+◌, ◌*◌, ◌%◌, ◌^◌, ◌<◌, ◌≤◌, ◌≡◌, ◌≢◌, List, [], ◌∷◌, ◌++◌, get_elem?, set, Option, some,
  Bool, true, false, ◌&&◌, ◌||◌, if◌then◌else◌,
}
use microkernel_benchmark.Prelude.Int.{ℤ, pos, ltb_ℤ}
use microkernel_benchmark.Prelude.Program.{Program, pure, require, warn_unless, ◌>>=◌, ◌>>◌}
use microkernel_benchmark.CString.{Bytes, atoi}
use microkernel_benchmark.Policy.{Host, on_qnx}

abbrev pub default_threads : ℕ
default_threads = 4

-- The number of threads from the arguments behind the program's name.
unfoldable pub num_threads : List Bytes → Program ℤ
unfolding atoi
num_threads [] = pure (pos default_threads)
num_threads (arg ∷ _) =
    if ltb_ℤ (pos 0) (atoi arg)
    then pure (atoi arg)
    else (warn_unless false "Invalid number of threads provided. Using default: 4"
        >> pure (pos default_threads))

-- `main` up to the creation of the threads; `granted` is the answer to the two requests for memory.
unfoldable pub prepare : Host → Bool → List Bytes → Program ℤ
unfolding num_threads
prepare host granted args = do
  require (on_qnx host.platform || host.set_affinity 0) "sched_setaffinity"
  require (on_qnx host.platform || host.set_rlimit_as (512 * 1024 * 1024)) "setrlimit"
  n ← num_threads args
  require granted "malloc"
  pure n

-- `thread_function` and the field `iterations` of its data, an unsigned long.
pub data Thread : Type 0 where
  testing : (iterations : ℕ) → Thread
  counting : (iterations : ℕ) → Thread  -- has found the flag clear
  exited : (iterations : ℕ) → Thread

abbrev pub iterations : Thread → ℕ
iterations (testing k) = k
iterations (counting k) = k
iterations (exited k) = k

-- The lines of the report, from thread `i` on: its number and its counter.
unfoldable pub report : ℕ → List Thread → List (ℕ × ℕ)
unfolding iterations
report i [] = []
report i (t ∷ ts) = (i, iterations t) ∷ report (i + 1) ts

pub data Main : Type 0 where
  creating : (i : ℕ) → Main
  sleeping : Main
  joining : (i : ℕ) → Main
  returned : Main
  failed : Main

pub record State : Type 0 where
  pub stop : Bool
  pub main : Main
  pub threads : List Thread
  pub printed : List (ℕ × ℕ)

abbrev pub init : State
init = record { stop = false; main = creating 0; threads = []; printed = [] }

module _ (n : ℕ) where
  pub data Step (s : State) : State → Type 0 where
    create :
        {i : ℕ}
        → s.main ≡ creating i
        → i < n
        → Step s (record s { main = creating (i + 1); threads = s.threads ++ testing 0 ∷ [] })
    create_fails : {i : ℕ} → s.main ≡ creating i → i < n → Step s (record s { main = failed })
    sleep : {i : ℕ} → s.main ≡ creating i → n ≤ i → Step s (record s { main = sleeping })
    set_stop : s.main ≡ sleeping → Step s (record s { main = joining 0; stop = true })
    join :
        (i k : ℕ)
        → s.main ≡ joining i
        → i < n
        → get_elem? s.threads i ≡ some (exited k)
        → Step s (record s { main = joining (i + 1) })
    print :
        {i : ℕ}
        → s.main ≡ joining i
        → n ≤ i
        → Step s (record s { main = returned; printed = report 0 s.threads })
    see_clear :
        (i k : ℕ)
        → get_elem? s.threads i ≡ some (testing k)
        → s.stop ≡ false
        → Step s (record s { threads = set s.threads i (counting k) })
    see_stop :
        (i k : ℕ)
        → get_elem? s.threads i ≡ some (testing k)
        → s.stop ≡ true
        → Step s (record s { threads = set s.threads i (exited k) })
    count :
        (i k : ℕ)
        → get_elem? s.threads i ≡ some (counting k)
        → Step s (record s { threads = set s.threads i (testing ((k + 1) % 2 ^ 64)) })

  -- Any number of steps; a failure ends the threads too.
  pub data Steps (s : State) : State → Type 0 where
    here : Steps s s
    next : {t u : State} → Steps s t → t.main ≢ failed → Step t u → Steps s u
