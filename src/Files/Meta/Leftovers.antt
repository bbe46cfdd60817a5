-- ===== src/Files/Meta/Leftovers.antt =====
-- What file_meta.c leaves behind, with a file system that does what is asked but may refuse to
-- open.
use microkernel_benchmark.Prelude.{
  ℕ, ◌<◌, ◌≡◌, refl, ◌∙◌, arith, ◌⊎◌, inl, inr, none, some, Bool, true, false,
}
use microkernel_benchmark.CString.{Bytes}
use microkernel_benchmark.Files.FileSystem.{FileSystem, IsLawful}
use microkernel_benchmark.Files.Meta.{num_files, file, cleanup, finish, main, Readings, times, Run}
use microkernel_benchmark.Files.Meta.Rounds.{Among, Files, Created, true-ne-false}
use microkernel_benchmark.Files.Meta.Loops.{made_all, finish_empty}

-- The status is 0, the times are printed, and neither the directory nor a file in it is left.
pub record IsClean (fs : FileSystem) (t : Readings) (r : Run fs) : Type 0 where
  pub status : r.status ≡ 0
  pub printed : r.printed ≡ some (times t)
  pub directory : fs.has_directory r.left ≡ false
  pub files : (q : Bytes) → fs.has_file r.left q ≡ false

-- `fopen` of file number `k` is refused in the state that is left: the status is 1, nothing is
-- printed, and the files before it stay.
pub record IsStopped (fs : FileSystem) (k : ℕ) (r : Run fs) : Type 0 where
  pub status : r.status ≡ 1
  pub refused : fs.fopen r.left (file k) ≡ none
  pub printed : r.printed ≡ none
  pub files : Files fs r.left (Among file 0 k)

module _ (fs : FileSystem) (laws : IsLawful fs) (t : Readings) where
  abbrev Outcome : Run fs → Type 0
  Outcome r = IsClean fs t r ⊎ ((k : ℕ) × (k < num_files) × IsStopped fs k r)

  finish-Outcome : (r : fs.State × Bool) → Created fs r → Outcome (finish fs t r)
  unfolding finish
  finish-Outcome (s, false) (inl (e, _)) = absurd (true-ne-false e refl)
  finish-Outcome (s, false) (inr (k, lt, _, shut, f)) =
      inr (k, lt, record { status = refl; refused = shut; printed = refl; files = f })
  finish-Outcome (s, true) (inr (k, lt, e, _, _)) = absurd (true-ne-false refl e)
  finish-Outcome (s, true) (inl (_, f)) =
      let none_left = finish_empty fs laws s f in
      inl record {
        status = refl;
        printed = refl;
        directory = laws.rmdir_empty _ none_left;
        files = λ q. laws.rmdir_files _ q ∙ none_left q;
      }

  -- With a lawful file system, whatever it holds before, the program either ends with status 0,
  -- prints the time between its two readings of the clock around each loop, and leaves neither the
  -- directory nor a file in it, or ends with status 1 at a file, number `k`, whose `fopen` is
  -- refused in the state that is left, prints no times, and leaves exactly the files 0 to k - 1, which
  -- did open, by their first names.
  pub main_leaves :
      (s : fs.State)
      → IsClean fs t (main fs t s) ⊎ ((k : ℕ) × (k < num_files) × IsStopped fs k (main fs t s))
  unfolding main cleanup
  main_leaves s = finish-Outcome _ (
      made_all fs laws num_files 0 _ refl (record {
        present = λ q w. let (j, lo, hi, e) = w in absurd (omega arith);
        absent =
            λ q h. absurd (true-ne-false h (laws.mkdir_files _ q ∙ laws.remove_tree_files s q));
      }))
