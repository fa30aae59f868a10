-- ===== src/Alexa/Title.antt =====
-- `normalizeTitle` of book.go: letters, digits and marks, in lower case.
use billy.Base.{
  ℕ, codes, List, [], ◌∷◌, String, Bool, true, ◌||◌, if◌then◌else◌, ◌≡◌, refl, Bool-cases, inl, inr,
}

-- The tables of the package unicode.
pub record Unicode : Type 0 where
  pub is_letter : ℕ → Bool
  pub is_digit : ℕ → Bool
  pub is_mark : ℕ → Bool
  pub to_lower : ℕ → ℕ

module _ (u : Unicode) where
  abbrev pub is_kept : ℕ → Bool
  is_kept r = u.is_letter r || u.is_digit r || u.is_mark r

  -- The loop over the runes of a title.
  unfoldable pub normalize_runes : List ℕ → List ℕ
  normalize_runes [] = []
  normalize_runes (r ∷ runes) =
      let rest = normalize_runes runes in if is_kept r then u.to_lower r ∷ rest else rest

  unfoldable pub normalize_title : String → List ℕ
  normalize_title title = normalize_runes (codes title)

  -- What the tables promise: the lower case of a kept rune is kept, and lowering twice is lowering
  -- once.
  pub record LowersWell : Type 0 where
    pub stays : (r : ℕ) → is_kept r ≡ true → is_kept (u.to_lower r) ≡ true
    pub settles : (r : ℕ) → is_kept r ≡ true → u.to_lower (u.to_lower r) ≡ u.to_lower r

  -- Normalising the runes of a normalised title changes nothing, if lower-casing is idempotent on
  -- letters, digits and marks and leaves them such.
  pub normalize_runes_idempotent :
      (runes : List ℕ)
      → LowersWell
      → normalize_runes (normalize_runes runes) ≡ normalize_runes runes
  unfolding normalize_runes
  normalize_runes_idempotent [] w = refl
  normalize_runes_idempotent (r ∷ runes) w = elim (Bool-cases (is_kept r)) [
    | inl k ↦ rw k (rw (w.stays r k, w.settles r k, normalize_runes_idempotent runes w))
    | inr k ↦ rw k (normalize_runes_idempotent runes w)
  ]
