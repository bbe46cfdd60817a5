-- ===== src/Memory/Leak.antt =====
-- memory/memleak.c
use microkernel_benchmark.Prelude.{ℕ, zero, suc, ◌+◌, List, [], ◌∷◌, Bool}
use microkernel_benchmark.Prelude.Program.{Program, pure, require, ◌>>=◌, ◌>>◌}

abbrev pub num_leaks : ℕ
num_leaks = 1000

-- The loop with `n` blocks to go. Nothing is freed: the result has the blocks leaked, each with the
-- byte that was written to its start.
unfoldable pub leak : (ℕ → Bool) → ℕ → ℕ → Program (List (ℕ × ℕ))
leak ok zero k = pure []
leak ok (suc n) k = do
  require (ok k) "Allocation failed at"
  leaked ← leak ok n (k + 1)
  pure ((k, b'a') ∷ leaked)

unfoldable pub main : (ℕ → Bool) → Program (List (ℕ × ℕ))
main ok = leak ok num_leaks 0
