-- ===== src/Memory/Malloc.antt =====
-- memory/malloc.c
use microkernel_benchmark.Prelude.{
  ℕ, ◌≡◌, ◌↔◌, ◌⊎◌, inl, inr, Option, none, some, List, Bool, sym, ap, ◌∙◌,
}
use microkernel_benchmark.Prelude.Int.{ℤ, pos, ◌-ℤ◌}
use microkernel_benchmark.Memory.{fill, free_all}
use microkernel_benchmark.Memory.Fill.{
  FailsEarly, free_all-FailsEarly, free_all-defined, dec_FailsEarly,
}

abbrev pub num_allocs : ℕ
num_allocs = 10_000

-- What `clock` returns before and behind a loop.
pub record Interval : Type 0 where
  pub start : ℕ
  pub end : ℕ

-- In ticks, of which CLOCKS_PER_SEC make a second.
unfoldable pub elapsed : Interval → ℤ
elapsed t = pos t.end -ℤ pos t.start

-- The two times that are printed, and the blocks freed, in order.
pub record Report : Type 0 where
  pub allocation_time : ℤ
  pub deallocation_time : ℤ
  pub freed : List ℕ

-- `none` if a pointer is freed that was never written.
unfoldable pub report : Interval → Interval → Option (List ℕ) → Option Report
unfolding elapsed
report allocation deallocation none = none
report allocation deallocation (some freed) = some (record {
  allocation_time = elapsed allocation;
  deallocation_time = elapsed deallocation;
  freed = freed;
})

unfoldable pub main : Interval → Interval → (ℕ → Bool) → Option Report
unfolding fill free_all report
main allocation deallocation ok = report allocation deallocation (free_all (fill ok num_allocs 0))

module _ (allocation deallocation : Interval) (ok : ℕ → Bool) where
  main_defined :
      FailsEarly ok num_allocs 0 ⊎ (¬ FailsEarly ok num_allocs 0)
      → main allocation deallocation ok ≡ none
      → FailsEarly ok num_allocs 0
  unfolding main report
  main_defined (inl early) e = early
  main_defined (inr late) e =
      let (freed, some_freed) = free_all-defined ok num_allocs 0 late in
      absurd (
        let clash : report allocation deallocation (some freed) ≡ none =
          sym (ap (report allocation deallocation) some_freed) ∙ e in
        cc)

  -- The program frees a pointer that it has not written exactly when an allocation before the last
  -- one fails: the first loop then stops early, and the second one still frees the whole array.
  pub undefined_iff_FailsEarly :
      (main allocation deallocation ok ≡ none) ↔ FailsEarly ok num_allocs 0
  unfolding main report
  undefined_iff_FailsEarly = (
    main_defined (dec_FailsEarly ok num_allocs 0),
    λ early. ap (report allocation deallocation) (free_all-FailsEarly ok num_allocs 0 early),
  )
