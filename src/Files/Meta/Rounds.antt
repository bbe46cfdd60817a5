-- ===== src/Files/Meta/Rounds.antt =====
-- Which files there are after one round of each loop of file_meta.c.
use native.Mathlib.Decide.{ℕ_discrete}
use microkernel_benchmark.Prelude.{
  ℕ, ◌+◌, ◌≤◌, ◌<◌, ◌≡◌, ◌≢◌, refl, sym, ap, ◌∙◌, arith, ◌⊎◌, inl, inr, none, some, Bool, true,
  false,
}
use microkernel_benchmark.CString.{Bytes}
use microkernel_benchmark.Files.FileSystem.{FileSystem, IsLawful}
use microkernel_benchmark.Files.Meta.{num_files, file, renamed}
use microkernel_benchmark.Files.Meta.Names.{file-inj, renamed-inj, file-ne-renamed}

pub bytes_discrete : Discrete Bytes
bytes_discrete = hlevel ℕ_discrete

-- `q` is the name of a number from `lo` to `hi - 1`.
abbrev pub Among : (ℕ → Bytes) → ℕ → ℕ → Bytes → Type 0
Among name lo hi q = (j : ℕ) × (lo ≤ j) × (j < hi) × (q ≡ name j)

-- After `i` renames of `num_files`.
abbrev pub Halfway : ℕ → Bytes → Type 0
Halfway i q = Among file i num_files q ⊎ Among renamed 0 i q

earlier : (i j : ℕ) → i < num_files → j < num_files → i + 1 ≤ j → file i ≢ file j
earlier i j hi hj lt e = let k : i ≡ j = file-inj hi hj e in omega arith

pub true-ne-false : {b : Bool} → b ≡ true → b ≢ false
true-ne-false t f = ground arith

pub false-unless : {b : Bool} → b ≢ true → b ≡ false
false-unless {b = false} n = refl
false-unless {b = true} n = absurd (n refl)

module _ (fs : FileSystem) where
  -- The files are those among the named ones, and no other.
  pub record Files (s : fs.State) (P : Bytes → Type 0) : Type 0 where
    pub present : (q : Bytes) → P q → fs.has_file s q ≡ true
    pub absent : (q : Bytes) → fs.has_file s q ≡ true → P q

  -- What the first loop leaves: it came through, or `fopen` of file number `k` was refused.
  abbrev pub Created : fs.State × Bool → Type 0
  Created r =
      ((r.1 ≡ true) × Files r.0 (Among file 0 num_files))
      ⊎ ((k : ℕ) × (k < num_files)
          × (r.1 ≡ false)
          × (fs.fopen r.0 (file k) ≡ none)
          × Files r.0 (Among file 0 k))

module _ (fs : FileSystem) (laws : IsLawful fs) where
  pub Files-map :
      {s : fs.State} {P Q : Bytes → Type 0}
      → ((q : Bytes) → P q → Q q)
      → ((q : Bytes) → Q q → P q)
      → Files fs s P
      → Files fs s Q
  Files-map to from f = record {
    present = λ q w. f.present q (from q w);
    absent = λ q h. to q (f.absent q h);
  }

  pub made :
      (i : ℕ) (s t : fs.State)
      → i < num_files
      → fs.fopen s (file i) ≡ some t
      → Files fs s (Among file 0 i)
      → Files fs t (Among file 0 (i + 1))
  made i s t lt opened f = record {
    present = λ q w.
        let (j, lo, hi, e) = w in
        elim (bytes_discrete q (file i)) [
          | yes same ↦ rw same (laws.fopen_made s (file i) opened)
          | no ne ↦
              laws.fopen_others s (file i) q opened ne
              ∙ f.present q (
                j,
                lo,
                elim (ℕ_discrete j i) [ yes k ↦ absurd (ne (e ∙ ap file k)) | no k ↦ omega arith ],
                e,
              )
        ];
    absent = λ q h. elim (bytes_discrete q (file i)) [
      | yes same ↦ (i, omega arith, omega arith, same)
      | no ne ↦
          let (j, lo, hi, e) = f.absent q (sym (laws.fopen_others s (file i) q opened ne) ∙ h) in
          (j, lo, omega arith, e)
    ];
  }

  pub moved :
      (i : ℕ) (s : fs.State)
      → i < num_files
      → Files fs s (Halfway i)
      → Files fs (fs.rename s (file i) (renamed i)) (Halfway (i + 1))
  moved i s lt f =
      let old : fs.has_file s (file i) ≡ true =
        f.present (file i) (inl (i, omega arith, lt, refl)) in
      record {
        present = λ q w. elim (bytes_discrete q (renamed i)) [
          | yes same ↦ rw same (laws.rename_new s (file i) (renamed i) old)
          | no ne ↦ elim w [
            | inl (j, lo, hi, e) ↦
                laws.rename_others s (file i) (renamed i) q
                  (λ same. earlier i j lt hi lo (sym same ∙ e)) ne
                ∙ f.present q (inl (j, omega arith, hi, e))
            | inr (j, lo, hi, e) ↦
                laws.rename_others s (file i) (renamed i) q
                  (λ same. file-ne-renamed i j (sym same ∙ e)) ne
                ∙ f.present q (
                    inr (
                      j,
                      lo,
                      elim (ℕ_discrete j i) [
                        | yes k ↦ absurd (ne (e ∙ ap renamed k))
                        | no k ↦ omega arith
                      ],
                      e,
                    ))
          ]
        ];
        absent = λ q h. elim (bytes_discrete q (renamed i)) [
          | yes same ↦ inr (i, omega arith, omega arith, same)
          | no ne ↦ elim (bytes_discrete q (file i)) [
            | yes same ↦ absurd (
                true-ne-false h (
                  ap (fs.has_file _) same
                  ∙ laws.rename_old s (file i) (renamed i) old (file-ne-renamed i i)))
            | no other ↦
                elim (f.absent q (sym (laws.rename_others s (file i) (renamed i) q other ne) ∙ h)) [
                  | inl (j, lo, hi, e) ↦ inl (
                    j,
                    elim (ℕ_discrete j i) [
                      | yes k ↦ absurd (other (e ∙ ap file k))
                      | no k ↦ omega arith
                    ],
                    hi,
                    e,
                  )
                  | inr (j, lo, hi, e) ↦ inr (j, lo, omega arith, e)
                ]
          ]
        ];
      }

  pub gone :
      (i : ℕ) (s : fs.State)
      → i < num_files
      → Files fs s (Among renamed i num_files)
      → Files fs (fs.unlink s (renamed i)) (Among renamed (i + 1) num_files)
  gone i s lt f =
      let old : fs.has_file s (renamed i) ≡ true =
        f.present (renamed i) (i, omega arith, lt, refl) in
      record {
        present = λ q w.
            let (j, lo, hi, e) = w in
            laws.unlink_others s (renamed i) q
              (λ same. let k : i ≡ j = renamed-inj lt hi (sym same ∙ e) in omega arith)
            ∙ f.present q (j, omega arith, hi, e);
        absent = λ q h. elim (bytes_discrete q (renamed i)) [
          | yes same ↦
              absurd
                (true-ne-false h (ap (fs.has_file _) same ∙ laws.unlink_file s (renamed i) old))
          | no ne ↦
              let (j, lo, hi, e) = f.absent q (sym (laws.unlink_others s (renamed i) q ne) ∙ h) in
              (
                j,
                elim (ℕ_discrete j i) [
                  | yes k ↦ absurd (ne (e ∙ ap renamed k))
                  | no k ↦ omega arith
                ],
                hi,
                e,
              )
        ];
      }
