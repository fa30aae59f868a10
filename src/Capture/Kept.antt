-- ===== src/Capture/Kept.antt =====
-- What a capture leaves on the disk.
use billy.Base.{
  ℕ, bytes_eq, bytes_eq_iff, bytes_eq_refl, List, false, ◌≡◌, ◌≢◌, ◌⊎◌, refl, sym, ap, ◌∙◌,
  if◌then◌else◌, Option, none, some, Bool-cases, Option-cases, inl, inr,
}
use mathlib.Core.Path.{subst}
use billy.Capture.{
  FilePath, Disk, WriteOutcome, written, failed, Os, write, remove_path, remove_capture_files,
  capture_stem, body_path, sidecar_path, abandon, save_files, save,
}
use billy.Errors.{ok, err, Foreign, Result-cases}

WriteOutcome-cases :
    (o : WriteOutcome)
    → (o ≡ written) ⊎ ((left : Option (List ℕ)) × (cause : Foreign) × (o ≡ failed left cause))
WriteOutcome-cases written = inl refl
WriteOutcome-cases (failed left cause) = inr (left, cause, refl)

module _ {Metadata : Type 0} (os : Os Metadata) where
  -- A removal of a file that is there succeeds.
  abbrev pub Removes : Type 0
  Removes = (path : FilePath) → os.remove_file path ≡ none

  paths_differ :
      (dir : FilePath) (stem : List ℕ)
      → sidecar_path os dir stem ≢ body_path os dir stem
      → bytes_eq (sidecar_path os dir stem) (body_path os dir stem) ≡ false
  paths_differ dir stem apart =
      elim (Bool-cases (bytes_eq (sidecar_path os dir stem) (body_path os dir stem))) [
        | inr e ↦ e
        | inl e ↦ absurd (apart ((bytes_eq_iff _ _).0 e))
      ]

  -- After a removal that works, the path holds nothing and the others what they held.
  remove_at :
      (disk : Disk) (path p : FilePath)
      → Removes
      → (remove_path os disk path).0 p ≡ (if bytes_eq path p then none else disk p)
  unfolding remove_path
  remove_at disk path p works = elim (Option-cases (disk path)) [
    | inr (content, e) ↦ rw (e, works path, remove_path)
    | inl e ↦ elim (Bool-cases (bytes_eq path p)) [
      | inr b ↦ rw (e, b, remove_path)
      | inl b ↦ rw (e, b, remove_path) (ap disk (sym ((bytes_eq_iff path p).0 b)) ∙ e)
    ]
  ]

  -- A write changes nothing but its path.
  write_at :
      (disk : Disk) (path p : FilePath) (content : List ℕ)
      → (left : Option (List ℕ)) × ((write os disk path content).0 p
          ≡ (if bytes_eq path p then left else disk p))
  unfolding write
  write_at disk path p content = elim (WriteOutcome-cases (os.write_file path content)) [
    | inl e ↦ (some content, rw (e, write))
    | inr (left, cause, e) ↦ (left, rw (e, write))
  ]

  -- A write that succeeds leaves its content.
  written_at :
      (disk : Disk) (path p : FilePath) (content : List ℕ)
      → (write os disk path content).1 ≡ none
      → (write os disk path content).0 p ≡ (if bytes_eq path p then some content else disk p)
  unfolding write
  written_at disk path p content h = elim (WriteOutcome-cases (os.write_file path content)) [
    | inl e ↦ rw (e, write)
    | inr (left, cause, e) ↦ cc (rw (e, write) at h)
  ]

  files_ok :
      (dir : FilePath) (disk : Disk) (stem got body sidecar : List ℕ)
      → sidecar_path os dir got ≢ body_path os dir got
      → (save_files os dir disk stem body sidecar).1 ≡ ok got
      → (stem ≡ got)
        × ((save_files os dir disk stem body sidecar).0 (body_path os dir stem) ≡ some body)
        × ((save_files os dir disk stem body sidecar).0 (sidecar_path os dir stem) ≡ some sidecar)
  unfolding save_files abandon
  files_ok dir disk stem got body sidecar apart h =
      let b = body_path os dir stem in
      let s = sidecar_path os dir stem in
      elim (Option-cases (write os disk b body).1) [
        | inr (cause, e) ↦ cc (rw (e, save_files, abandon) at h)
        | inl e ↦ elim (Option-cases (write os (write os disk b body).0 s sidecar).1) [
          | inr (cause, e') ↦ cc (rw (e, e', save_files, abandon) at h)
          | inl e' ↦
              let same : stem ≡ got = cc (rw (e, e', save_files) at h) in
              let differ =
                subst (λ n. sidecar_path os dir n ≢ body_path os dir n) (sym same) apart in
              rw (e, e', save_files)
                (
                  same,
                  written_at (write os disk b body).0 s b sidecar e'
                      ∙ rw (paths_differ dir stem differ)
                          (written_at disk b b body e ∙ rw (bytes_eq_refl b)),
                  written_at (write os disk b body).0 s s sidecar e' ∙ rw (bytes_eq_refl s),
                )
        ]
      ]

  -- A capture that succeeds leaves the body, byte for byte, and the encoded metadata under the stem
  -- that it returns, if `filepath.Join` gives that stem's two file names different paths.
  pub save_ok :
      (dir : FilePath) (disk : Disk) (meta : Metadata) (body stem : List ℕ)
      → sidecar_path os dir stem ≢ body_path os dir stem
      → (save os dir disk meta body).1 ≡ ok stem
      → (sidecar : List ℕ) × (os.marshal meta ≡ ok sidecar)
        × ((save os dir disk meta body).0 (body_path os dir stem) ≡ some body)
        × ((save os dir disk meta body).0 (sidecar_path os dir stem) ≡ some sidecar)
  unfolding save
  save_ok dir disk meta body stem apart h = elim (Result-cases (capture_stem os meta)) [
    | inr (cause, c) ↦ cc (rw (c, save) at h)
    | inl (name, c) ↦ elim (Result-cases (os.marshal meta)) [
      | inr (cause, m) ↦ cc (rw (c, m, save) at h)
      | inl (sidecar, m) ↦
          let (same, held, beside) =
            files_ok dir disk name stem body sidecar apart (rw (c, m, save) at h) in
          rw (c, m, save)
            (
              sidecar,
              refl,
              subst
                  (λ n.
                    (save_files os dir disk name body sidecar).0 (body_path os dir n) ≡ some body)
                  same held,
              subst
                  (λ n.
                    (save_files os dir disk name body sidecar).0 (sidecar_path os dir n)
                    ≡ some sidecar)
                  same beside,
            )
    ]
  ]

  -- One path is cleaned, and then the other.
  unwritten :
      (disk base : Disk) (b p : FilePath)
      → Removes
      → base b ≡ none
      → (left : Option (List ℕ)) × (disk p ≡ (if bytes_eq b p then left else base p))
      → (remove_path os disk b).0 p ≡ base p
  unwritten disk base b p works free (left, at) = elim (Bool-cases (bytes_eq b p)) [
    | inl e ↦ remove_at disk b p works ∙ rw e (sym free ∙ ap base ((bytes_eq_iff b p).0 e))
    | inr e ↦ remove_at disk b p works ∙ rw e (at ∙ rw e)
  ]

  files_error :
      (dir : FilePath) (disk : Disk) (stem body sidecar : List ℕ) (causes : List Foreign)
      (p : FilePath)
      → Removes
      → disk (body_path os dir stem) ≡ none
      → disk (sidecar_path os dir stem) ≡ none
      → (save_files os dir disk stem body sidecar).1 ≡ err causes
      → (save_files os dir disk stem body sidecar).0 p ≡ disk p
  unfolding save_files abandon remove_capture_files
  files_error dir disk stem body sidecar causes p works free free' h =
      let b = body_path os dir stem in
      let s = sidecar_path os dir stem in
      let d = (write os disk b body).0 in
      elim (Option-cases (write os disk b body).1) [
        | inr (cause, e) ↦
            rw (e, save_files, abandon, remove_capture_files)
              (unwritten d disk b p works free (write_at disk b p body))
        | inl e ↦ elim (Option-cases (write os d s sidecar).1) [
          | inl e' ↦ cc (rw (e, e', save_files) at h)
          | inr (cause, e') ↦
              rw (e, e', save_files, abandon, remove_capture_files)
                (remove_at _ s p works
                  ∙ both d (write os d s sidecar).0 p (write_at disk b p body)
                      (write_at d s p sidecar))
        ]
      ]
    where
      both :
          (d d' : Disk) (p : FilePath)
          → (left : Option (List ℕ)) × (d p
              ≡ (if bytes_eq (body_path os dir stem) p then left else disk p))
          → (left : Option (List ℕ)) × (d' p
              ≡ (if bytes_eq (sidecar_path os dir stem) p then left else d p))
          → (if bytes_eq (sidecar_path os dir stem) p
              then none
              else (remove_path os d' (body_path os dir stem)).0 p)
            ≡ disk p
      both d d' p (left, at) (left', at') =
          elim (Bool-cases (bytes_eq (sidecar_path os dir stem) p)) [
            | inl q ↦ rw q (sym free' ∙ ap disk ((bytes_eq_iff _ _).0 q))
            | inr q ↦
                rw q (unwritten d' disk (body_path os dir stem) p works free (left, at' ∙ rw q at))
          ]

  -- A capture that fails leaves the disk as it was, if its stem is new and removals work: neither a
  -- body without its metadata nor a part of one.
  pub save_error :
      (dir : FilePath) (disk : Disk) (meta : Metadata) (body stem : List ℕ) (causes : List Foreign)
      (p : FilePath)
      → Removes
      → capture_stem os meta ≡ ok stem
      → disk (body_path os dir stem) ≡ none
      → disk (sidecar_path os dir stem) ≡ none
      → (save os dir disk meta body).1 ≡ err causes
      → (save os dir disk meta body).0 p ≡ disk p
  unfolding save
  save_error dir disk meta body stem causes p works c free free' h =
      elim (Result-cases (os.marshal meta)) [
        | inr (cause, m) ↦ rw (c, m, save)
        | inl (sidecar, m) ↦
            rw (c, m, save)
              (files_error dir disk stem body sidecar causes p works free free'
                (rw (c, m, save) at h))
      ]
