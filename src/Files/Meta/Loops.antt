-- ===== src/Files/Meta/Loops.antt =====
-- Which files there are after the loops of file_meta.c.
use microkernel_benchmark.Prelude.{
  ℕ, zero, suc, ◌+◌, ◌≡◌, refl, sym, subst, arith, inl, inr, Option-cases, none, some, false,
}
use microkernel_benchmark.CString.{Bytes}
use microkernel_benchmark.Files.FileSystem.{FileSystem, IsLawful}
use microkernel_benchmark.Files.Meta.{num_files, file, renamed, create, rename_all, delete_all}
use microkernel_benchmark.Files.Meta.Rounds.{
  Among, Files, Created, Halfway, Files-map, made, moved, gone, false-unless,
}

module _ (fs : FileSystem) (laws : IsLawful fs) where
  create_fails :
      (n i : ℕ) (s : fs.State) → fs.fopen s (file i) ≡ none → create fs (suc n) i s ≡ (s, false)
  unfolding create
  create_fails n i s e = rw (create, e)

  create_goes_on :
      (n i : ℕ) (s t : fs.State)
      → fs.fopen s (file i) ≡ some t
      → create fs (suc n) i s ≡ create fs n (i + 1) t
  unfolding create
  create_goes_on n i s t e = rw (create, e)

  moved_all :
      (n i : ℕ) (s : fs.State)
      → i + n ≡ num_files
      → Files fs s (Halfway i)
      → Files fs (rename_all fs n i s) (Halfway num_files)
  unfolding rename_all
  moved_all zero i s e f = subst (λ k. Files fs s (Halfway k)) (omega arith) f
  moved_all (suc n) i s e f =
      moved_all n (i + 1) _ (omega arith) (moved fs laws i s (omega arith) f)

  gone_all :
      (n i : ℕ) (s : fs.State)
      → i + n ≡ num_files
      → Files fs s (Among renamed i num_files)
      → Files fs (delete_all fs n i s) (Among renamed num_files num_files)
  unfolding delete_all
  gone_all zero i s e f = subst (λ k. Files fs s (Among renamed k num_files)) (omega arith) f
  gone_all (suc n) i s e f = gone_all n (i + 1) _ (omega arith) (gone fs laws i s (omega arith) f)

  pub made_all :
      (n i : ℕ) (s : fs.State)
      → i + n ≡ num_files
      → Files fs s (Among file 0 i)
      → Created fs (create fs n i s)
  unfolding create
  made_all zero i s e f = inl (refl, subst (λ k. Files fs s (Among file 0 k)) (omega arith) f)
  made_all (suc n) i s e f = elim (Option-cases (fs.fopen s (file i))) [
    | inl shut ↦
        subst (Created fs) (sym (create_fails n i s shut)) (inr (i, omega arith, refl, shut, f))
    | inr (t, opened) ↦
        subst (Created fs) (sym (create_goes_on n i s t opened))
          (made_all n (i + 1) t (omega arith) (made fs laws i s t (omega arith) opened f))
  ]

  -- Renaming and deleting leave none of the files.
  pub finish_empty :
      (s : fs.State)
      → Files fs s (Among file 0 num_files)
      → (q : Bytes)
      → fs.has_file (delete_all fs num_files 0 (rename_all fs num_files 0 s)) q ≡ false
  finish_empty s f q =
      let between = moved_all num_files 0 s refl (
        Files-map fs laws (λ r. inl)
          (λ r w. elim w [ inl a ↦ a | inr (j, _, hi, _) ↦ absurd (omega arith) ]) f) in
      let last = gone_all num_files 0 _ refl (
        Files-map fs laws (λ r w. elim w [ inl (j, lo, hi, _) ↦ absurd (omega arith) | inr a ↦ a ])
          (λ r. inr) between) in
      false-unless (λ h. let (j, lo, hi, _) = last.absent q h in omega arith)
