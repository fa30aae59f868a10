-- ===== src/Url/Segments.antt =====
-- Elements of a path: splitting and joining undo one another, and cleaning leaves plain elements.
use billy.Base.{
  ℕ, ◌==◌, false, ◌≡◌, ◌≢◌, refl, ap, ◌∙◌, List, [], ◌∷◌, ◌++◌, All, arith, Bool-cases, inl, inr,
}
use mathlib.Core.List.{append-nil}
use billy.Url.Clean.{onto_first, split_slash, join_rooted, dot, dot_dot}

abbrev pub NoSlash : List ℕ → Type 0
NoSlash = All (λ c. c ≢ b'/')

-- An element that names an entry of the directory before it.
pub record IsPlain (part : List ℕ) : Type 0 where
  pub no_slash : NoSlash part
  pub not_empty : part ≢ []
  pub not_dot : part ≢ dot
  pub not_dot_dot : part ≢ dot_dot

onto_first-NoSlash :
    (c : ℕ) (parts : List (List ℕ))
    → c ≢ b'/'
    → All NoSlash parts
    → All NoSlash (onto_first c parts)
unfolding onto_first
onto_first-NoSlash c [] p h = ((p, tt), tt)
onto_first-NoSlash c (part ∷ parts) p (h, k) = ((p, h), k)

pub split_slash-NoSlash : (s : List ℕ) → All NoSlash (split_slash s)
unfolding split_slash
split_slash-NoSlash [] = (tt, tt)
split_slash-NoSlash (c ∷ s) = elim (Bool-cases (c == b'/')) [
  | inl e ↦ rw e (tt, split_slash-NoSlash s)
  | inr e ↦ rw e (onto_first-NoSlash c _ (ground arith) (split_slash-NoSlash s))
]

split_slash-NoSlash' :
    (part s : List ℕ) → NoSlash part → split_slash (part ++ b'/' ∷ s) ≡ part ∷ split_slash s
unfolding split_slash
split_slash-NoSlash' [] s h = refl
split_slash-NoSlash' (c ∷ part) s (p, h) =
    let e : (c == b'/') ≡ false = ground arith in rw (e, split_slash-NoSlash' part s h, onto_first)

split_slash_last : (part : List ℕ) → NoSlash part → split_slash part ≡ part ∷ []
unfolding split_slash
split_slash_last [] h = refl
split_slash_last (c ∷ part) (p, h) =
    let e : (c == b'/') ≡ false = ground arith in rw (e, split_slash_last part h, onto_first)

pub split_slash-join_rooted :
    (part : List ℕ) (parts : List (List ℕ))
    → NoSlash part
    → All NoSlash parts
    → split_slash (part ++ join_rooted parts) ≡ part ∷ parts
unfolding join_rooted
split_slash-join_rooted part [] p h = rw append-nil (split_slash_last part p)
split_slash-join_rooted part (q ∷ parts) p (h, k) =
    split_slash-NoSlash' part (q ++ join_rooted parts) p
    ∙ ap (◌∷◌ part) (split_slash-join_rooted q parts h k)
