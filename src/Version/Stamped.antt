-- ===== src/Version/Stamped.antt =====
-- What the version string says.
use billy.Base.{
  ℕ, ltb, bytes_eq, List, [], ◌∷◌, ◌++◌, length, take, is_empty, false, if◌then◌else◌, Option, ◌≡◌,
  refl, Bool-cases, Option-cases, inl, inr,
}
use billy.Version.{
  Stamp, BuildInfo, Revision, devel, in_parentheses, released, show_revision, build_version,
}

is_empty-append : (s t : List ℕ) → is_empty s ≡ false → is_empty (s ++ t) ≡ false
is_empty-append [] t e = cc
is_empty-append (c ∷ s) t e = refl

is_empty-take : (s : List ℕ) → is_empty s ≡ false → is_empty (take 12 s) ≡ false
is_empty-take [] e = e
is_empty-take (c ∷ s) e = refl

is_empty-released : (s : Stamp) → is_empty s.version ≡ false → is_empty (released s) ≡ false
unfolding released
is_empty-released s e = elim (Bool-cases (is_empty s.commit)) [
  | inl c ↦ rw (released, c) e
  | inr c ↦ rw (released, c) (is_empty-append s.version (in_parentheses s) e)
]

is_empty-show_revision : (r : Revision) → is_empty (show_revision r) ≡ false
unfolding show_revision
is_empty-show_revision r =
    let short = if ltb 12 (length r.rev) then take 12 r.rev else r.rev in
    elim (Bool-cases (is_empty r.rev)) [
      | inl e ↦ rw (show_revision, e)
      | inr e ↦
          let full : is_empty short ≡ false = elim (Bool-cases (ltb 12 (length r.rev))) [
            | inl l ↦ rw l (is_empty-take r.rev e)
            | inr l ↦ rw l e
          ] in
          elim (Bool-cases r.modified) [
            | inl m ↦ rw (show_revision, e, m) (is_empty-append short _ full)
            | inr m ↦ rw (show_revision, e, m) full
          ]
    ]

-- The version string is never empty, whatever the release build sets and the build information says.
pub is_empty-build_version :
    (s : Stamp) (read : Option BuildInfo) → is_empty (build_version s read) ≡ false
unfolding build_version
is_empty-build_version s read = elim (Bool-cases (is_empty s.version)) [
  | inr e ↦ rw (build_version, e) (is_empty-released s e)
  | inl e ↦ elim (Option-cases read) [
    | inl r ↦ rw (build_version, e, r)
    | inr (info, r) ↦ elim (Bool-cases (is_empty info.main_version)) [
      | inl m ↦ rw (build_version, e, r, m) (is_empty-show_revision _)
      | inr m ↦ elim (Bool-cases (bytes_eq info.main_version devel)) [
        | inl d ↦ rw (build_version, e, r, m, d) (is_empty-show_revision _)
        | inr d ↦ rw (build_version, e, r, m, d) m
      ]
    ]
  ]
]
