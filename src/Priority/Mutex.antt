-- ===== src/Priority/Mutex.antt =====
-- Who has the mutex, as numbers: 1 for the thread that has it, and 0 for the other.
use microkernel_benchmark.Prelude.{ℕ, ◌≡◌, refl, arith}
use microkernel_benchmark.Priority.{Owner, free, low_owns, high_owns}

abbrev pub owned_low : Owner → ℕ
owned_low low_owns = 1
owned_low _ = 0

abbrev pub owned_high : Owner → ℕ
owned_high high_owns = 1
owned_high _ = 0

pub is_free : {o : Owner} → owned_low o ≡ 0 → owned_high o ≡ 0 → o ≡ free
is_free {o = free} el eh = refl
is_free {o = low_owns} el eh = absurd (ground arith)
is_free {o = high_owns} el eh = absurd (ground arith)
