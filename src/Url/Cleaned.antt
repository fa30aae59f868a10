-- ===== src/Url/Cleaned.antt =====
-- What `cleanedPath` yields: the plain elements of a rooted path, each behind a slash.
use billy.Base.{
  if◌then◌else◌, ℕ, ◌==◌, codes, true, false, ◌≡◌, ◌≢◌, refl, List, [], ◌∷◌, All, arith, Bool-cases,
  inl, inr, has_prefix,
}
use billy.Url.Clean.{
  clean, clean_rooted, clean_relative, split_slash, join_rooted, resolve_all, dot,
}
use billy.Url.Normalize.{cleaned_path}
use billy.Url.Segments.{IsPlain, split_slash-NoSlash}
use billy.Url.Resolve.{IsNamed, resolve_all-IsPlain, resolve_all-IsNamed}

-- The elements of the cleaned path; a relative path is replaced by the root.
unfoldable pub segments : List ℕ → List (List ℕ)
segments [] = []
segments (c ∷ s) = if c == b'/' then resolve_all true [] (split_slash s) else []

pub segments-IsPlain : (path : List ℕ) → All IsPlain (segments path)
unfolding segments
segments-IsPlain [] = tt
segments-IsPlain (c ∷ s) = elim (Bool-cases (c == b'/')) [
  | inl e ↦ rw (e, segments) (resolve_all-IsPlain [] (split_slash s) tt (split_slash-NoSlash s))
  | inr e ↦ rw (e, segments) tt
]

-- A cleaned relative path does not begin with a slash.
clean_relative_no_prefix :
    (parts : List (List ℕ))
    → All IsNamed parts
    → has_prefix (clean_relative parts) (codes "/") ≡ false
unfolding clean_relative has_prefix
clean_relative_no_prefix [] h = refl
clean_relative_no_prefix ([] ∷ parts) (p, h) = absurd (p.not_empty refl)
clean_relative_no_prefix ((c ∷ part) ∷ parts) (p, h) =
    let q : c ≢ b'/' = p.no_slash.0 in ground arith

clean_rooted_prefix : (parts : List (List ℕ)) → has_prefix (clean_rooted parts) (codes "/") ≡ true
unfolding clean_rooted join_rooted has_prefix
clean_rooted_prefix [] = refl
clean_rooted_prefix (part ∷ parts) = ground arith

pub cleaned_path-segments : (path : List ℕ) → cleaned_path path ≡ clean_rooted (segments path)
unfolding cleaned_path clean segments
cleaned_path-segments [] = relative_root
  where
    relative_root : (if has_prefix dot (codes "/") then dot else codes "/") ≡ clean_rooted []
    relative_root = unfold has_prefix clean_rooted in refl
cleaned_path-segments (c ∷ s) = elim (Bool-cases (c == b'/')) [
  | inl e ↦ rw e (rw (clean_rooted_prefix (resolve_all true [] (split_slash s))))
  | inr e ↦ rw e (
      rw
        (clean_relative_no_prefix (resolve_all false [] (split_slash (c ∷ s)))
          (resolve_all-IsNamed [] (split_slash (c ∷ s)) tt (split_slash-NoSlash (c ∷ s))))
        root)
]
  where
    root : codes "/" ≡ clean_rooted []
    root = unfold clean_rooted in refl
