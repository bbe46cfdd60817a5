-- ===== src/SleepWake/Processes/Results.antt =====
-- sleep_wake_process.c: from what the sleeping processes measure to the report.
use microkernel_benchmark.Prelude.{
  ℕ, zero, suc, ◌+◌, ◌*◌, ◌^◌, ◌<◌, ◌≡◌, refl, sym, ap, ◌∙◌, arith, Option, some, List, [], ◌∷◌,
  append-nil, Bool, true, false, ◌||◌,
}
use microkernel_benchmark.Prelude.Int.{ℤ, pos, pos_part}
use microkernel_benchmark.Prelude.Program.{pure}
use microkernel_benchmark.CString.{Bytes}
use microkernel_benchmark.CString.Scan.{
  signed_decimal, scan_int, scan_int-space, scan_int-signed_decimal, magnitude, scan_signed,
  skip_spaces,
}
use microkernel_benchmark.Policy.{on_qnx}
use microkernel_benchmark.SleepWake.{Sleep, SleepData, fresh, sleep_loop, num_sleepers, num_loaders}
use microkernel_benchmark.SleepWake.Lateness.{total_lateness, sleep_loop-total}
use microkernel_benchmark.SleepWake.Processes.{
  message, Line, measured, scan_result, line_of, report, fork_sleepers, fork_loaders, Grants, main,
}

scan_result_found :
    (s : Bytes) {a b c : ℤ} {r r' r'' : Bytes}
    → scan_int s ≡ some (a, r)
    → scan_int r ≡ some (b, r')
    → scan_int r' ≡ some (c, r'')
    → scan_result s ≡ some (measured a b c)
unfolding scan_result
scan_result_found s e f g = rw (scan_result, e, f, g) refl

scan_result_empty : {line : Line} → scan_result [] ≡ some line → ⊥
unfolding scan_result scan_int scan_signed skip_spaces
scan_result_empty e = ground arith

line_of_scanned : (i : ℕ) (s : Bytes) {line : Line} → scan_result s ≡ some line → line_of i s ≡ line
unfolding line_of
line_of_scanned i [] e = absurd (scan_result_empty e)
line_of_scanned i (c ∷ cs) e = rw (line_of, e) refl

-- The numbers have 20 digits at most.
pub record Fits (d : SleepData) : Type 0 where
  pub id : d.id < 10 ^ 20
  pub total : magnitude d.total_jitter_ns < 10 ^ 20
  pub iterations : d.iterations < 10 ^ 20

abbrev pub line_for : SleepData → Line
line_for d = measured (pos d.id) d.total_jitter_ns (pos d.iterations)

scan_last : (n : ℕ) → n < 10 ^ 20 → scan_int (signed_decimal (pos n)) ≡ some (pos n, [])
scan_last n fits = ap scan_int (sym (append-nil _)) ∙ scan_int-signed_decimal (pos n) [] fits refl

line_of-message : (i : ℕ) (d : SleepData) → Fits d → line_of i (message (some d)) ≡ line_for d
unfolding message
line_of-message i d f = line_of_scanned i _ (
    scan_result_found _ (scan_int-signed_decimal (pos d.id) _ f.id refl)
      (scan_int-space _ ∙ scan_int-signed_decimal d.total_jitter_ns _ f.total refl)
      (scan_int-space _ ∙ scan_last d.iterations f.iterations))

-- The lines for `n` processes from `i` on.
abbrev pub lines : (ℕ → SleepData) → ℕ → ℕ → List Line
lines d zero i = []
lines d (suc n) i = line_for (d i) ∷ lines d n (i + 1)

pub report-lines :
    (results : ℕ → Option SleepData) (d : ℕ → SleepData) (n i : ℕ)
    → ((j : ℕ) → j < i + n → (results j ≡ some (d j)) × Fits (d j))
    → report results n i ≡ lines d n i
unfolding report
report-lines results d zero i h = refl
report-lines results d (suc n) i h =
    let (e, f) = h i (omega arith) in
    let first = ap (λ r. line_of i (message r)) e ∙ line_of-message i (d i) f in
    let rest = report-lines results d n (i + 1) (λ j lt. h j (omega arith)) in
    ap (λ l. l ∷ report results n (i + 1)) first ∙ ap (λ ls. line_for (d i) ∷ ls) rest

forked_all :
    (piped forked : ℕ → Bool) (n i : ℕ)
    → ((j : ℕ) → piped j ≡ true)
    → ((j : ℕ) → forked j ≡ true)
    → fork_sleepers piped forked n i ≡ pure tt
unfolding fork_sleepers
forked_all piped forked zero i p f = refl
forked_all piped forked (suc n) i p f = rw (p i, f i) (forked_all piped forked n (i + 1) p f)

loaded_all :
    (forked : ℕ → Bool) (n i : ℕ) → ((j : ℕ) → forked j ≡ true) → fork_loaders forked n i ≡ pure tt
unfolding fork_loaders
loaded_all forked zero i f = refl
loaded_all forked (suc n) i f = rw (f i) (loaded_all forked n (i + 1) f)

-- The kernel grants what the program asks for.
pub record AllGranted (g : Grants) : Type 0 where
  pub affinity : (on_qnx g.host.platform || g.host.set_affinity 0) ≡ true
  pub memory : (on_qnx g.host.platform || g.host.set_rlimit_as (512 * 1024 * 1024)) ≡ true
  pub allocated : g.allocated ≡ true
  pub piped : (i : ℕ) → g.piped i ≡ true
  pub forked : (i : ℕ) → g.forked i ≡ true
  pub load_forked : (i : ℕ) → g.load_forked i ≡ true

pub main_granted :
    (g : Grants) (results : ℕ → Option SleepData) (args : List Bytes)
    → AllGranted g
    → main g results args ≡ pure (report results (pos_part (num_sleepers args)) 0)
unfolding main
main_granted g results args a =
    rw
      (
        a.affinity,
        a.memory,
        a.allocated,
        forked_all g.piped g.forked (pos_part (num_sleepers args)) 0 a.piped a.forked,
        loaded_all g.load_forked (pos_part (num_loaders args)) 0 a.load_forked,
      )
      refl

-- The test of process `i` is over at its look number `looks i` at the clock, and not before.
pub record IsOver (expired : ℕ → Bool) (look : ℕ) : Type 0 where
  pub before : (k : ℕ) → k < look → expired k ≡ false
  pub over : expired look ≡ true

abbrev pub summary : (ℕ → Sleep) → ℕ → ℕ → SleepData
summary sleeps look i = record {
  id = i;
  total_jitter_ns = pos (total_lateness sleeps (suc look) 0);
  iterations = suc look;
}

-- If the kernel grants what the program asks for, and each sleeping process finds its test over at
-- some look at the clock for the first time, within the fuel, with numbers of 20 digits at most,
-- then the report has a line for each process in order: its number, its jitter, which is the sum of
-- the time that each of its sleeps took beyond 10 ms, and the number of its sleeps.
pub main_reports :
    (g : Grants) (args : List Bytes) (fuel : ℕ) (sleeps : ℕ → ℕ → Sleep) (expired : ℕ → ℕ → Bool)
    (look : ℕ → ℕ)
    → AllGranted g
    → ((i : ℕ) → i < pos_part (num_sleepers args) → IsOver (expired i) (look i))
    → ((i : ℕ) → i < pos_part (num_sleepers args) → look i < fuel)
    → ((i : ℕ) → i < pos_part (num_sleepers args) → Fits (summary (sleeps i) (look i) i))
    → main g (λ i. sleep_loop (sleeps i) (expired i) fuel 0 (fresh i)) args
      ≡ pure (lines (λ i. summary (sleeps i) (look i) i) (pos_part (num_sleepers args)) 0)
main_reports g args fuel sleeps expired look granted ends enough fits =
    main_granted g _ args granted
    ∙ ap pure (
        report-lines _ (λ i. summary (sleeps i) (look i) i) _ 0
          (λ i lt. (
            sleep_loop-total (sleeps i) (expired i) i (look i) fuel (ends i (omega arith)).before
                (ends i (omega arith)).over (enough i (omega arith)),
            fits i (omega arith),
          )))
