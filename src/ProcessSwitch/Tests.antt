-- ===== src/ProcessSwitch/Tests.antt =====
-- Instances of the theorems on process_ctx_switch.c: the byte is with the child, which then fails.
use mathlib.Core.WellFounded.{Acc}
use microkernel_benchmark.Prelude.{◌≡◌, ◌⊎◌, refl, arith, true, [], ◌∷◌}
use microkernel_benchmark.Prelude.Int.{pos}
use microkernel_benchmark.Prelude.Program.{finished}
use microkernel_benchmark.CString.{codes}
use microkernel_benchmark.ProcessSwitch.{
  Parent, Child, failed, State, init, parent_gone, child_gone, start, Step, parent_write,
  child_read, child_write_fails, Reach, here, next, fault,
}
use microkernel_benchmark.ProcessSwitch.Progress.{After, always_ends}

abbrev lost : State
lost = record {
  p2c = [];
  c2p = [];
  parent = Parent.reading 0;
  child = failed 0;
  parent_buf = 0;
  child_buf = 0;
}

held_reached : Reach 3 (init 7) (record lost { child = Child.writing 0 })
held_reached =
    next (next here (parent_write refl (omega arith) refl)) (child_read refl (omega arith) refl)

lost_reached : Reach 3 (init 7) lost
lost_reached = fault held_reached (child_write_fails refl)

always_ends_example :
    (((parent_gone lost.parent ≡ true) × (child_gone lost.child ≡ true))
      ⊎ ((t : State) × Step 3 lost t))
    × Acc (After 3) lost
always_ends_example = always_ends 3 lost_reached

given_rounds : (start true true true (codes "25" ∷ [])).result ≡ finished (pos 25)
unfolding start
given_rounds = refl
