-- ===== src/SleepWake/Tests.antt =====
-- Three sleeps: late by 5 and by 70 ns, and one that is interrupted early.
use microkernel_benchmark.Prelude.{
  ℕ, zero, suc, ◌+◌, ◌*◌, ◌/◌, ◌%◌, ◌≡◌, refl, arith, none, some, List, [], ◌∷◌, Bool, true, leb,
  ltb, if◌then◌else◌,
}
use microkernel_benchmark.Prelude.Int.{pos, pos_part, ◌*ℤ◌, ◌-ℤ◌}
use microkernel_benchmark.Prelude.Program.{pure}
use microkernel_benchmark.Policy.{linux}
use microkernel_benchmark.CString.{codes}
use microkernel_benchmark.Timespec.{Timespec}
use microkernel_benchmark.SleepWake.{
  Sleep, fresh, sleep_loop, thread_loop, num_sleepers, num_loaders,
}
use microkernel_benchmark.SleepWake.Lateness.{sleep_loop-total, thread_loop-total}
use microkernel_benchmark.SleepWake.Processes
use microkernel_benchmark.SleepWake.Processes.Child.{
  Clock, exit_failure, exit_success, written, sleep_proc_function,
}
use microkernel_benchmark.SleepWake.Processes.Child.Account.{Readings, IsSteady, Accounts, sleep_of}
use microkernel_benchmark.SleepWake.Processes.OnTime.{jitter_until, main_on_time}
use microkernel_benchmark.SleepWake.Processes.{Grants, line_of, unparsable}
use microkernel_benchmark.SleepWake.Processes.Results.{AllGranted, lines, summary, main_reports}
use microkernel_benchmark.SleepWake.Threads
use microkernel_benchmark.SleepWake.Threads.Lines.{sleepers, main-sleepers}

abbrev lasting : ℕ → Sleep
lasting ns = record {
  before = record { tv_sec = 7; tv_nsec = 0 };
  after = record { tv_sec = 7; tv_nsec = ns };
}

abbrev sleeps : ℕ → Sleep
sleeps zero = lasting 10_000_005
sleeps (suc zero) = lasting 4_000_000
sleeps (suc (suc k)) = lasting 10_000_070

abbrev at_third : ℕ → Bool
at_third k = leb 2 k

sleep_loop-total_run :
    sleep_loop sleeps at_third 100 0 (fresh 1)
    ≡ some (record { id = 1; total_jitter_ns = pos 75; iterations = 3 })
sleep_loop-total_run =
    sleep_loop-total sleeps at_third 1 2 100 (λ i lt. ground arith) refl (omega arith)

thread_loop-total_run :
    thread_loop (sleeps 0 ∷ sleeps 1 ∷ sleeps 2 ∷ []) (fresh 1)
    ≡ record { id = 1; total_jitter_ns = pos 75; iterations = 3 }
thread_loop-total_run = thread_loop-total (sleeps 0 ∷ sleeps 1 ∷ sleeps 2 ∷ []) 1

zero_sleepers : num_sleepers (codes "0" ∷ codes "0" ∷ []) ≡ pos 2
unfolding num_sleepers
zero_sleepers = refl

zero_loaders : num_loaders (codes "0" ∷ codes "0" ∷ []) ≡ pos 0
unfolding num_loaders
zero_loaders = refl

abbrev generous : Grants
generous = record {
  host = record {
    platform = linux;
    prio_max = λ _. pos 99;
    set_scheduler = λ _ _. true;
    set_affinity = λ _. true;
    set_rlimit_as = λ _. true;
    create_thread = λ _. true;
  };
  allocated = true;
  piped = λ _. true;
  forked = λ _. true;
  load_forked = λ _. true;
}

generous-AllGranted : AllGranted generous
generous-AllGranted = record {
  affinity = refl;
  memory = refl;
  allocated = refl;
  piped = λ _. refl;
  forked = λ _. refl;
  load_forked = λ _. refl;
}

two_sleepers : pos_part (num_sleepers []) ≡ 2
unfolding num_sleepers
two_sleepers = refl

main_reports_run :
    Processes.main generous (λ i. sleep_loop sleeps at_third 100 0 (fresh i)) []
    ≡ pure (lines (λ i. summary sleeps 2 i) (pos_part (num_sleepers [])) 0)
main_reports_run =
    main_reports generous [] 100 (λ _. sleeps) (λ _. at_third) (λ _. 2) generous-AllGranted
      (λ _ _. record { before = λ k lt. ground arith; over = refl }) (λ _ _. omega arith)
      (λ i lt. record {
        id = omega (arith, two_sleepers);
        total = omega arith;
        iterations = omega arith;
      })

-- A result that is cut off is not taken.
cut_off : line_of 1 (codes "1 75") ≡ unparsable 1 (codes "1 75")
unfolding line_of
cut_off = refl

abbrev threads_granted : Threads.Grants
threads_granted = record {
  host = generous.host;
  allocated = true;
  created = λ _. true;
  load_created = λ _. true;
}

-- The first thread sees the flag before it sleeps.
abbrev late_start : ℕ → List Sleep
late_start zero = []
late_start (suc i) = sleeps 0 ∷ sleeps 2 ∷ []

main-sleepers_example :
    Threads.main threads_granted late_start []
    ≡ pure (sleepers late_start (pos_part (num_sleepers [])) 0)
main-sleepers_example = main-sleepers threads_granted late_start [] (record {
  affinity = refl;
  memory = refl;
  allocated = refl;
  created = λ _. refl;
  load_created = λ _. refl;
})

-- A round each 11 ms, whose sleep is late by 5 ns.
abbrev moment : ℕ → Timespec
moment ns = record { tv_sec = ns / 1_000_000_000; tv_nsec = ns % 1_000_000_000 }

abbrev regular : Readings
regular = record {
  test_start = moment 0;
  before = λ k. moment (k * 11_000_000);
  after = λ k. moment (k * 11_000_000 + 10_000_005);
  now = λ k. moment (k * 11_000_000 + 10_000_005);
}

abbrev ticking : Clock
ticking = record {
  test_start = some regular.test_start;
  before = λ k. some (regular.before k);
  after = λ k. some (regular.after k);
  now = λ k. some (regular.now k);
}

ticking-IsSteady : IsSteady ticking regular
ticking-IsSteady = record {
  started = refl;
  before = λ k. refl;
  after = λ k. refl;
  now = λ k. refl;
  first = omega arith;
  slept = λ k. omega arith;
  looked = λ k. omega arith;
  next = λ k. omega arith;
}

main_on_time_example :
    (last : ℕ → ℕ) × (Processes.main generous (λ i. written (sleep_proc_function ticking 500 i)) []
      ≡ pure (lines (λ i. summary (sleep_of regular) (last i) i) (pos_part (num_sleepers [])) 0))
    × ((i : ℕ) → Accounts regular (jitter_until regular (last i)) (last i))
main_on_time_example =
    main_on_time generous [] 500 (λ i. ticking) (λ i. regular) generous-AllGranted
      (omega (arith, two_sleepers)) (λ i. ticking-IsSteady) (λ i k lt. omega arith) (omega arith)

-- The look at the clock fails in the second round, so nothing is written.
abbrev failing : Clock
failing = record ticking { now = λ k. if ltb k 1 then some (regular.now k) else none }

nothing_written : sleep_proc_function failing 500 0 ≡ exit_failure
unfolding sleep_proc_function ◌*ℤ◌ ◌-ℤ◌
nothing_written = refl

abbrev coarse : Clock
coarse = record {
  test_start = some (moment 0);
  before = λ k. some (moment (k * 2_500_000_000));
  after = λ k. some (moment (k * 2_500_000_000 + 10_000_005));
  now = λ k. some (moment ((k + 1) * 2_500_000_000));
}

two_sleeps :
    sleep_proc_function coarse 500 1
    ≡ exit_success (record { id = 1; total_jitter_ns = pos 10; iterations = 2 })
unfolding sleep_proc_function ◌*ℤ◌ ◌-ℤ◌
two_sleeps = refl
