-- ===== src/Cache/Entries.antt =====
-- The map operations of the cache on the list of its entries.
use billy.Base.{
  ℕ, ◌<◌, ◌≤◌, bytes_eq, bytes_eq_iff, List, [], ◌∷◌, ◌++◌, length, true, false, ◌≡◌, refl, sym, ap,
  ◌∙◌, arith, All, if◌then◌else◌, none, some, Bool-cases, inl, inr,
}
use mathlib.Core.Path.{subst}
use billy.Cache.{Key, CacheEntry, lookup, replace, delete}

pub bytes_eq_self : (k : Key) → bytes_eq k k ≡ true
bytes_eq_self k = (bytes_eq_iff k k).1 refl

abbrev pub Entries : Type 0 → Type 0
Entries A = List (Key × CacheEntry A)

module _ {A : Type 0} where
  -- No key stands twice.
  abbrev pub Distinct : Entries A → Type 0
  Distinct [] = Unit
  Distinct ((k, e) ∷ m) = (lookup k m ≡ none) × Distinct m

  -- The orders increase strictly.
  abbrev pub Increasing : Entries A → Type 0
  Increasing [] = Unit
  Increasing ((k, e) ∷ m) = All (λ x. e.order < x.1.order) m × Increasing m

  module _ (key : Key) where
    pub lookup-append :
        (m : Entries A) (k : Key) (e : CacheEntry A)
        → lookup k (m ++ (key, e) ∷ []) ≡ (elim (lookup k m) [
          | some e' ↦ some e'
          | none ↦ if bytes_eq key k then some e else none
        ])
    unfolding lookup
    lookup-append [] k e = refl
    lookup-append ((k', e') ∷ m) k e = elim (Bool-cases (bytes_eq k' k)) [
      | inl t ↦ rw t
      | inr t ↦ rw t (lookup-append m k e)
    ]

    pub length-replace : (e : CacheEntry A) (m : Entries A) → length (replace key e m) ≡ length m
    unfolding replace
    length-replace e [] = refl
    length-replace e ((k, e') ∷ m) = ground (arith, length-replace e m)

    pub length-delete-le : (m : Entries A) → length (delete key m) ≤ length m
    unfolding delete
    length-delete-le [] = omega arith
    length-delete-le ((k, e') ∷ m) = ground (arith, length-delete-le m)

    -- What holds of every entry by its order holds after a replacement with the same order.
    pub All-replace :
        (P : ℕ → Type 0) (e old : CacheEntry A) (m : Entries A)
        → lookup key m ≡ some old
        → e.order ≡ old.order
        → All (λ x. P x.1.order) m
        → All (λ x. P x.1.order) (replace key e m)
    unfolding lookup replace
    All-replace P e old [] found same h = h
    All-replace P e old ((k, e') ∷ m) found same (p, h) = elim (Bool-cases (bytes_eq k key)) [
      | inl t ↦
          let here : e' ≡ old = ground arith in
          rw t (subst (λ n. P n) (ap (λ (x : CacheEntry A). x.order) here ∙ sym same) p, h)
      | inr t ↦ rw t (p, All-replace P e old m (ground arith) same h)
    ]

    pub All-delete :
        (P : Key × CacheEntry A → Type 0) (m : Entries A) → All P m → All P (delete key m)
    unfolding delete
    All-delete P [] h = h
    All-delete P ((k, e') ∷ m) (p, h) = elim (Bool-cases (bytes_eq k key)) [
      | inl t ↦ rw t h
      | inr t ↦ rw t (p, All-delete P m h)
    ]

    pub Increasing-replace :
        (e old : CacheEntry A) (m : Entries A)
        → lookup key m ≡ some old
        → e.order ≡ old.order
        → Increasing m
        → Increasing (replace key e m)
    unfolding lookup replace
    Increasing-replace e old [] found same h = h
    Increasing-replace e old ((k, e') ∷ m) found same (p, h) = elim (Bool-cases (bytes_eq k key)) [
      | inl t ↦
          let here : e' ≡ old = ground arith in
          rw t (
            subst (λ n. All (λ (x : Key × CacheEntry A). n < x.1.order) m)
                (ap (λ (x : CacheEntry A). x.order) here ∙ sym same) p,
            h,
          )
      | inr t ↦
          let found' : lookup key m ≡ some old = ground arith in
          rw t (
            All-replace (λ n. e'.order < n) e old m found' same p,
            Increasing-replace e old m found' same h,
          )
    ]

    pub Increasing-delete : (m : Entries A) → Increasing m → Increasing (delete key m)
    unfolding delete
    Increasing-delete [] h = h
    Increasing-delete ((k, e') ∷ m) (p, h) = elim (Bool-cases (bytes_eq k key)) [
      | inl t ↦ rw t h
      | inr t ↦ rw t (All-delete (λ x. e'.order < x.1.order) m p, Increasing-delete m h)
    ]

    lookup-replace-none :
        (k : Key) (e : CacheEntry A) (m : Entries A)
        → lookup k m ≡ none
        → lookup k (replace key e m) ≡ none
    unfolding lookup replace
    lookup-replace-none k e [] h = refl
    lookup-replace-none k e ((k', e') ∷ m) h = ground (arith, lookup-replace-none k e m)

    pub Distinct-replace :
        (e : CacheEntry A) (m : Entries A) → Distinct m → Distinct (replace key e m)
    unfolding replace
    Distinct-replace e [] h = h
    Distinct-replace e ((k, e') ∷ m) (p, h) = elim (Bool-cases (bytes_eq k key)) [
      | inl t ↦ rw t (p, h)
      | inr t ↦ rw t (lookup-replace-none k e m p, Distinct-replace e m h)
    ]

    pub lookup-delete-none :
        (k : Key) (m : Entries A) → lookup k m ≡ none → lookup k (delete key m) ≡ none
    unfolding lookup delete
    lookup-delete-none k [] h = refl
    lookup-delete-none k ((k', e') ∷ m) h = ground (arith, lookup-delete-none k m)

    pub Distinct-delete : (m : Entries A) → Distinct m → Distinct (delete key m)
    unfolding delete
    Distinct-delete [] h = h
    Distinct-delete ((k, e') ∷ m) (p, h) = elim (Bool-cases (bytes_eq k key)) [
      | inl t ↦ rw t h
      | inr t ↦ rw t (lookup-delete-none k m p, Distinct-delete m h)
    ]

    -- After a deletion the key is gone and the others are as before.
    pub lookup-delete :
        (k : Key) (m : Entries A)
        → Distinct m
        → lookup k (delete key m) ≡ (if bytes_eq key k then none else lookup k m)
    unfolding lookup delete
    lookup-delete k [] h = ground arith
    lookup-delete k ((k', e') ∷ m) (p, h) = elim (Bool-cases (bytes_eq k' key)) [
      | inl t ↦
          let same : k' ≡ key = (bytes_eq_iff k' key).0 t in
          rw t (elim (Bool-cases (bytes_eq key k)) [
            | inl s ↦ rw s (subst (λ x. lookup x m ≡ none) (same ∙ (bytes_eq_iff key k).0 s) p)
            | inr s ↦ rw (s, ap (λ x. bytes_eq x k) same ∙ s)
          ])
      | inr t ↦ rw t (elim (Bool-cases (bytes_eq k' k)) [
        | inl s ↦ rw s (rw (other t s))
        | inr s ↦ rw s (lookup-delete k m h)
      ])
    ]
      where
        other : bytes_eq k' key ≡ false → bytes_eq k' k ≡ true → bytes_eq key k ≡ false
        other t s = ground (arith, bytes_eq_iff k' key, bytes_eq_iff k' k, bytes_eq_iff key k)

    -- After a replacement the key has the new entry, and the others are as before.
    pub lookup-replace :
        (k : Key) (e old : CacheEntry A) (m : Entries A)
        → lookup key m ≡ some old
        → lookup k (replace key e m) ≡ (if bytes_eq key k then some e else lookup k m)
    unfolding lookup replace
    lookup-replace k e old [] found = absurd (ground arith)
    lookup-replace k e old ((k', e') ∷ m) found = elim (Bool-cases (bytes_eq k' key)) [
      | inl t ↦
          let same : k' ≡ key = (bytes_eq_iff k' key).0 t in
          let tests : bytes_eq k' k ≡ bytes_eq key k = ap (λ x. bytes_eq x k) same in
          rw t (ground arith)
      | inr t ↦ rw t (elim (Bool-cases (bytes_eq k' k)) [
        | inl s ↦ rw s (rw (other t s))
        | inr s ↦ rw s (lookup-replace k e old m (ground arith))
      ])
    ]
      where
        other : bytes_eq k' key ≡ false → bytes_eq k' k ≡ true → bytes_eq key k ≡ false
        other t s = ground (arith, bytes_eq_iff k' key, bytes_eq_iff k' k, bytes_eq_iff key k)
