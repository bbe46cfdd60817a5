-- ===== src/Memory.antt =====
-- memory: programs that allocate many blocks of one size and free some of them. The allocator is
-- the library's: `ok k` says whether the k-th call of malloc succeeds, and each success is a new
-- block.
pub mod Fill
pub mod Malloc
pub mod Throughput
pub mod Fragment
pub mod Leak
mod Tests
use microkernel_benchmark.Prelude.{
  ℕ, zero, suc, ◌+◌, Option, none, some, List, [], ◌∷◌, ◌++◌, Bool, replicate, if◌then◌else◌,
}

-- An element of a local array of pointers: not yet written, NULL, or the block of the k-th malloc.
pub data Pointer : Type 0 where
  garbage : Pointer
  null : Pointer
  block : (k : ℕ) → Pointer

-- `for (i = k; i < k + n; i++) { ptrs[i] = malloc(..); if (!ptrs[i]) break; }`
unfoldable pub fill : (ℕ → Bool) → ℕ → ℕ → List Pointer
fill ok zero k = []
fill ok (suc n) k = if ok k then block k ∷ fill ok n (k + 1) else null ∷ replicate n garbage

-- free(NULL) does nothing; free of a pointer that was never written is undefined (`none`).
abbrev pub free : Pointer → Option (List ℕ)
free garbage = none
free null = some []
free (block k) = some (k ∷ [])

abbrev pub and_then : Option (List ℕ) → Option (List ℕ) → Option (List ℕ)
and_then none later = none
and_then (some ks) none = none
and_then (some ks) (some more) = some (ks ++ more)

-- `for (i = 0; i < n; i++) free(ptrs[i]);`, with the blocks in the order in which they are freed.
unfoldable pub free_all : List Pointer → Option (List ℕ)
free_all [] = some []
free_all (p ∷ ps) = and_then (free p) (free_all ps)
