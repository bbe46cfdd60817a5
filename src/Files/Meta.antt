-- ===== src/Files/Meta.antt =====
-- file_systems/file_meta.c: ten thousand files are created, renamed and deleted in a directory.
pub mod Names
pub mod Rounds
pub mod Loops
pub mod Leftovers
use microkernel_benchmark.Prelude.{
  ℕ, zero, suc, ◌+◌, ◌++◌, Option, none, some, List, ◌∷◌, Bool, true, false,
}
use microkernel_benchmark.Prelude.Int.{ℤ, pos, ◌-ℤ◌}
use microkernel_benchmark.CString.{Bytes, codes, decimal}
use microkernel_benchmark.Timespec.{Timespec, nanos}
use microkernel_benchmark.Files.FileSystem.{FileSystem}

abbrev pub num_files : ℕ
num_files = 10_000

-- "%s/file_%d.txt" and "%s/renamed_%d.txt"
unfoldable pub file : ℕ → Bytes
file i = codes "meta_test_dir/file_" ++ (decimal i ++ codes ".txt")

unfoldable pub renamed : ℕ → Bytes
renamed i = codes "meta_test_dir/renamed_" ++ (decimal i ++ codes ".txt")

-- In nanoseconds, without the rounding of a double.
unfoldable pub get_time_in_seconds : Timespec → ℕ
get_time_in_seconds = nanos

-- The readings of the clock around the three loops.
pub record Readings : Type 0 where
  pub start_create : Timespec
  pub end_create : Timespec
  pub start_rename : Timespec
  pub end_rename : Timespec
  pub start_delete : Timespec
  pub end_delete : Timespec

pub record Times : Type 0 where
  pub create_time : ℤ
  pub rename_time : ℤ
  pub delete_time : ℤ

unfoldable pub times : Readings → Times
unfolding get_time_in_seconds
times t = record {
  create_time = pos (get_time_in_seconds t.end_create) -ℤ pos (get_time_in_seconds t.start_create);
  rename_time = pos (get_time_in_seconds t.end_rename) -ℤ pos (get_time_in_seconds t.start_rename);
  delete_time = pos (get_time_in_seconds t.end_delete) -ℤ pos (get_time_in_seconds t.start_delete);
}

module _ (fs : FileSystem) where
  -- The status that the program returns, what it leaves, and the times if it prints them.
  pub record Run : Type 0 where
    pub status : ℕ
    pub left : fs.State
    pub printed : Option Times

  unfoldable pub cleanup : fs.State → fs.State
  cleanup s = fs.remove_tree s

  -- The three loops, with `n` files to go from number `i` on. The first says whether it came
  -- through.
  unfoldable pub create : ℕ → ℕ → fs.State → fs.State × Bool
  create zero i s = (s, true)
  create (suc n) i s = elim (fs.fopen s (file i)) [
    | none ↦ (s, false)
    | some t ↦ create n (i + 1) t
  ]

  -- The results of rename and unlink are not looked at.
  unfoldable pub rename_all : ℕ → ℕ → fs.State → fs.State
  rename_all zero i s = s
  rename_all (suc n) i s = rename_all n (i + 1) (fs.rename s (file i) (renamed i))

  unfoldable pub delete_all : ℕ → ℕ → fs.State → fs.State
  delete_all zero i s = s
  delete_all (suc n) i s = delete_all n (i + 1) (fs.unlink s (renamed i))

  -- Behind the first loop.
  unfoldable pub finish : Readings → fs.State × Bool → Run
  unfolding rename_all delete_all times
  finish t (s, false) = record { status = 1; left = s; printed = none }
  finish t (s, true) = record {
    status = 0;
    left = fs.rmdir (delete_all num_files 0 (rename_all num_files 0 s));
    printed = some (times t);
  }

  unfoldable pub main : Readings → fs.State → Run
  unfolding cleanup create finish
  main t s = finish t (create num_files 0 (fs.mkdir (cleanup s)))
