-- ===== src/Url/Separator.antt =====
-- Texts cut at the first occurrence of a separator.
use billy.Base.{ℕ, ◌≡◌, ◌≢◌, refl, List, [], ◌∷◌, ◌++◌, All}
use mathlib.Core.Path.{ap₂}

-- What may stand behind a text that is free of the separator.
pub data IsTail (sep : ℕ) : List ℕ → Type 0 where
  nothing : IsTail sep []
  more : (rest : List ℕ) → IsTail sep (sep ∷ rest)

module _ (sep : ℕ) where
  abbrev pub Free : List ℕ → Type 0
  Free = All (λ c. c ≢ sep)

  pub cut_unique :
      (x y : List ℕ) {t u : List ℕ}
      → Free x
      → Free y
      → IsTail sep t
      → IsTail sep u
      → x ++ t ≡ y ++ u
      → (x ≡ y) × (t ≡ u)
  cut_unique [] [] h k p q e = (refl, e)
  cut_unique [] (d ∷ y) h (k, _) nothing q e = cc
  cut_unique [] (d ∷ y) h (k, _) (more rest) q e = absurd (k (cc))
  cut_unique (c ∷ x) [] (h, _) k p nothing e = cc
  cut_unique (c ∷ x) [] (h, _) k p (more rest) e = absurd (h (cc))
  cut_unique (c ∷ x) (d ∷ y) (_, h) (_, k) p q e =
      let (same, tails) = cut_unique x y h k p q (cc) in (ap₂ ◌∷◌ (cc) same, tails)
