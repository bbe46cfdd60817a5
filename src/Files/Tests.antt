-- ===== src/Files/Tests.antt =====
-- A file system held in memory, which is lawful, and the witnesses with it.
use microkernel_benchmark.Prelude.{
  ℕ, ◌+◌, ◌<◌, ◌≡◌, ◌≢◌, refl, sym, ap, ◌∙◌, ◌⊎◌, Option, none, some, arith, Bool, true, false,
}
use microkernel_benchmark.Prelude.Program.{pure}
use microkernel_benchmark.CString.{Bytes}
use microkernel_benchmark.Files.FileSystem.{FileSystem, IsLawful}
use microkernel_benchmark.Files.Meta.{num_files, main, Readings}
use microkernel_benchmark.Files.Meta.Rounds.{bytes_discrete}
use microkernel_benchmark.Files.Meta.Leftovers.{IsClean, IsStopped, main_leaves}
use microkernel_benchmark.Files.ReadWrite
use microkernel_benchmark.Files.ReadWrite.{Ticks, elapsed}
use microkernel_benchmark.Files.ReadWrite.Whole.{blocks, main_reads_all}

-- Is there the directory, and which files are in it?
record Disk : Type 0 where
  directory : Bool
  files : Bytes → Bool

choose : {P : Type 0} → Dec P → Bool → Bool → Bool
choose (yes _) b c = b
choose (no _) b c = c

choose_yes : {P : Type 0} (b c : Bool) (d : Dec P) → P → choose d b c ≡ b
unfolding choose
choose_yes b c (yes _) p = refl
choose_yes b c (no n) p = absurd (n p)

choose_no : {P : Type 0} (b c : Bool) (d : Dec P) → ¬ P → choose d b c ≡ c
unfolding choose
choose_no b c (yes p) n = absurd (n p)
choose_no b c (no _) n = refl

set : (Bytes → Bool) → Bytes → Bool → Bytes → Bool
set f p b q = choose (bytes_discrete q p) b (f q)

set_same : (f : Bytes → Bool) (p : Bytes) {b : Bool} → set f p b p ≡ b
unfolding set
set_same f p = choose_yes _ _ (bytes_discrete p p) refl

set_other : (f : Bytes → Bool) {p : Bytes} (b : Bool) {q : Bytes} → q ≢ p → set f p b q ≡ f q
unfolding set
set_other f {p} b {q} = choose_no _ _ (bytes_discrete q p)

-- A file opens when the directory is there.
when : Bool → Disk → Option Disk
when true t = some t
when false t = none

when-some : {d t : Disk} (b : Bool) → when b d ≡ some t → d ≡ t
unfolding when
when-some {d} true e = ap (elim [ some t ↦ t | none ↦ d ]) e
when-some false e = ground arith

abbrev in_memory : FileSystem
in_memory = record {
  State = Disk;
  has_file = λ d. d.files;
  has_directory = λ d. d.directory;
  remove_tree = λ _. record { directory = false; files = λ _. false };
  mkdir = λ d. record { directory = true; files = d.files };
  fopen = λ d p. when d.directory (record { directory = true; files = set d.files p true });
  rename =
      λ d p r. record { directory = d.directory; files = set (set d.files p false) r (d.files p) };
  unlink = λ d p. record { directory = d.directory; files = set d.files p false };
  rmdir = λ d. record { directory = false; files = d.files };
}

in_memory-IsLawful : IsLawful in_memory
in_memory-IsLawful = record {
  remove_tree_files = λ _ _. refl;
  mkdir_files = λ _ _. refl;
  fopen_made = λ d p e. sym (ap (λ t. t.files p) (when-some d.directory e)) ∙ set_same d.files p;
  fopen_others =
      λ d p q e ne. sym (ap (λ t. t.files q) (when-some d.directory e)) ∙ set_other d.files _ ne;
  rename_new = λ d p r h. set_same _ r ∙ h;
  rename_old = λ d p r h ne. set_other _ _ ne ∙ set_same d.files p;
  rename_others = λ d p r q ne other. set_other _ _ other ∙ set_other d.files _ ne;
  unlink_file = λ d p h. set_same d.files p;
  unlink_others = λ d p q ne. set_other d.files _ ne;
  rmdir_files = λ _ _. refl;
  rmdir_empty = λ _ _. refl;
}

abbrev used_disk : Disk
used_disk = record { directory = false; files = λ _. true }

-- Five seconds for each loop.
abbrev readings : Readings
readings = record {
  start_create = record { tv_sec = 10; tv_nsec = 0 };
  end_create = record { tv_sec = 15; tv_nsec = 0 };
  start_rename = record { tv_sec = 15; tv_nsec = 0 };
  end_rename = record { tv_sec = 20; tv_nsec = 0 };
  start_delete = record { tv_sec = 20; tv_nsec = 0 };
  end_delete = record { tv_sec = 25; tv_nsec = 0 };
}

main_leaves_example :
    IsClean in_memory readings (main in_memory readings used_disk)
    ⊎ ((k : ℕ) × (k < num_files) × IsStopped in_memory k (main in_memory readings used_disk))
main_leaves_example = main_leaves in_memory in_memory-IsLawful readings used_disk

abbrev ticks : ℕ → Ticks
ticks n = record { start = 100; end = 100 + n }

-- The disk takes 4000 bytes of each block, and there was a file before.
main_reads_all_run :
    ReadWrite.main true true (ticks 40) (ticks 30) (λ _. 4000) 300_000 (some 7)
    ≡ pure (record {
      write_time = some (elapsed (ticks 40));
      found = some (
        (blocks (ReadWrite.written (λ _. 4000)) + 1, ReadWrite.written (λ _. 4000)),
        elapsed (ticks 30),
      );
      left = none;
    })
main_reads_all_run = main_reads_all (ticks 40) (ticks 30) (λ _. 4000) 300_000 (some 7) (omega arith)
