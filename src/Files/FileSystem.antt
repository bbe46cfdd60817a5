-- ===== src/Files/FileSystem.antt =====
-- The calls of the file system that file_systems/file_meta.c makes, and what it relies on: they
-- touch the names that they are given and no other. Opening a file may fail.
use microkernel_benchmark.Prelude.{◌≡◌, ◌≢◌, Option, some, Bool, true, false}
use microkernel_benchmark.CString.{Bytes}

pub record FileSystem : Type 1 where
  pub State : Type 0
  pub has_file : State → Bytes → Bool  -- under the directory of the benchmark
  pub has_directory : State → Bool
  pub remove_tree : State → State  -- rm -rf, by `system`
  pub mkdir : State → State
  pub fopen : State → Bytes → Option State  -- for writing, closed at once
  pub rename : State → Bytes → Bytes → State
  pub unlink : State → Bytes → State
  pub rmdir : State → State

pub record IsLawful (fs : FileSystem) : Type 0 where
  pub remove_tree_files : (s : fs.State) (q : Bytes) → fs.has_file (fs.remove_tree s) q ≡ false
  pub mkdir_files : (s : fs.State) (q : Bytes) → fs.has_file (fs.mkdir s) q ≡ fs.has_file s q
  pub fopen_made :
      (s : fs.State) (p : Bytes) {t : fs.State} → fs.fopen s p ≡ some t → fs.has_file t p ≡ true
  pub fopen_others :
      (s : fs.State) (p : Bytes) {t : fs.State} (q : Bytes)
      → fs.fopen s p ≡ some t
      → q ≢ p
      → fs.has_file t q ≡ fs.has_file s q
  pub rename_new :
      (s : fs.State) (p r : Bytes) → fs.has_file s p ≡ true → fs.has_file (fs.rename s p r) r ≡ true
  pub rename_old :
      (s : fs.State) (p r : Bytes)
      → fs.has_file s p ≡ true
      → p ≢ r
      → fs.has_file (fs.rename s p r) p ≡ false
  pub rename_others :
      (s : fs.State) (p r q : Bytes)
      → q ≢ p
      → q ≢ r
      → fs.has_file (fs.rename s p r) q ≡ fs.has_file s q
  pub unlink_file :
      (s : fs.State) (p : Bytes) → fs.has_file s p ≡ true → fs.has_file (fs.unlink s p) p ≡ false
  pub unlink_others :
      (s : fs.State) (p q : Bytes) → q ≢ p → fs.has_file (fs.unlink s p) q ≡ fs.has_file s q
  pub rmdir_files : (s : fs.State) (q : Bytes) → fs.has_file (fs.rmdir s) q ≡ fs.has_file s q
  pub rmdir_empty :
      (s : fs.State)
      → ((q : Bytes) → fs.has_file s q ≡ false)
      → fs.has_directory (fs.rmdir s) ≡ false
