-- ===== src/Cache/Oldest.antt =====
-- The eviction loop finds the entry with the least order, in whatever order the map is visited.
use billy.Base.{
  ℕ, ◌<◌, ltb, List, [], ◌∷◌, Bool, true, false, ◌||◌, ◌≡◌, ◌⊎◌, inl, inr, refl, sym, ◌∙◌,
  Bool-cases, arith, All,
}
use mathlib.Core.List.{Permᴰ}
use mathlib.Core.Path.{subst, ap₂}
use billy.Cache.{Key, CacheEntry, oldest_from, oldest}

-- Some element of the list has the property.
abbrev Any {ℓ} : {A : Type ℓ} → (A → Type 0) → List A → Type 0
Any P [] = ⊥
Any P (x ∷ xs) = P x ⊎ Any P xs

module _ {ℓ} {A : Type ℓ} (P : A → Type 0) where
  All-perm : {xs ys : List A} → Permᴰ xs ys → All P ys → All P xs
  All-perm Permᴰ.nil h = tt
  All-perm (Permᴰ.cons e d) (p, h) = (subst P (sym e) p, All-perm d h)
  All-perm (Permᴰ.swap e f) (p, (q, h)) = (subst P (sym e) q, (subst P (sym f) p, h))
  All-perm (Permᴰ.trans c d) h = All-perm c (All-perm d h)

  Any-perm : {xs ys : List A} → Permᴰ xs ys → Any P ys → Any P xs
  Any-perm Permᴰ.nil h = h
  Any-perm (Permᴰ.cons e d) (inl p) = inl (subst P (sym e) p)
  Any-perm (Permᴰ.cons e d) (inr h) = inr (Any-perm d h)
  Any-perm (Permᴰ.swap e f) (inl p) = inr (inl (subst P (sym f) p))
  Any-perm (Permᴰ.swap e f) (inr (inl q)) = inl (subst P (sym e) q)
  Any-perm (Permᴰ.swap e f) (inr (inr h)) = inr (inr h)
  Any-perm (Permᴰ.trans c d) h = Any-perm c (Any-perm d h)

module _ {A : Type 0} where
  abbrev is_newer : Bool → ℕ → CacheEntry A → Bool
  is_newer first n e = first || ltb e.order n

  step_found :
      (first : Bool) (k : Key) (n : ℕ) (k' : Key) (e : CacheEntry A) (m : List (Key × CacheEntry A))
      → is_newer first n e ≡ true
      → oldest_from first k n ((k', e) ∷ m) ≡ oldest_from false k' e.order m
  unfolding oldest_from
  step_found first k n k' e m t = rw t

  step_kept :
      (first : Bool) (k : Key) (n : ℕ) (k' : Key) (e : CacheEntry A) (m : List (Key × CacheEntry A))
      → is_newer first n e ≡ false
      → oldest_from first k n ((k', e) ∷ m) ≡ oldest_from first k n m
  unfolding oldest_from
  step_kept first k n k' e m t = rw t

module _ {A : Type 0} (key : Key) (least : ℕ) where
  abbrev pub IsOldest : (Key × CacheEntry A) → Type 0
  IsOldest x = (x.0 ≡ key) × (x.1.order ≡ least)

  abbrev pub IsOldestOrLater : (Key × CacheEntry A) → Type 0
  IsOldestOrLater x = IsOldest x ⊎ (least < x.1.order)

  -- Once the loop holds the oldest entry, it keeps it.
  oldest_kept :
      (m : List (Key × CacheEntry A)) → All IsOldestOrLater m → oldest_from false key least m ≡ key
  oldest_kept [] h = unfold oldest_from in refl
  oldest_kept ((k, e) ∷ m) (p, h) = step_kept false key least k e m (ground arith) ∙ oldest_kept m h

  oldest_taken :
      (first : Bool) (k : Key) (n : ℕ) (k' : Key) (e : CacheEntry A) (m : List (Key × CacheEntry A))
      → (first ≡ true) ⊎ (least < n)
      → IsOldest (k', e)
      → All IsOldestOrLater m
      → oldest_from first k n ((k', e) ∷ m) ≡ key
  oldest_taken first k n k' e m later (same, eq) h =
      step_found first k n k' e m (ground arith)
      ∙ (ap₂ (λ a b. oldest_from false a b m) same eq ∙ oldest_kept m h)

  oldest_found :
      (m : List (Key × CacheEntry A)) (first : Bool) (k : Key) (n : ℕ)
      → All IsOldestOrLater m
      → Any IsOldest m
      → (first ≡ true) ⊎ (least < n)
      → oldest_from first k n m ≡ key
  oldest_found [] first k n h found later = absurd found
  oldest_found ((k', e) ∷ m) first k n (p, h) (inl here) later =
      oldest_taken first k n k' e m later here h
  oldest_found ((k', e) ∷ m) first k n (inl here, h) (inr q) later =
      oldest_taken first k n k' e m later here h
  oldest_found ((k', e) ∷ m) first k n (inr after, h) (inr q) later =
      elim (Bool-cases (is_newer first n e)) [
        | inl t ↦ step_found first k n k' e m t ∙ oldest_found m false k' e.order h q (inr after)
        | inr t ↦ step_kept first k n k' e m t ∙ oldest_found m first k n h q later
      ]

-- If the first entry of the list has a lesser order than the others, the loop finds its key, in
-- whatever order it visits the entries.
pub oldest_of_perm :
    {A : Type 0} (key : Key) (e : CacheEntry A) (m visited : List (Key × CacheEntry A))
    → All (λ (x : Key × CacheEntry A). e.order < x.1.order) m
    → Permᴰ visited ((key, e) ∷ m)
    → oldest visited ≡ key
unfolding oldest
oldest_of_perm {A} key e m visited h d =
    oldest_found key e.order visited true [] 0
      (All-perm (IsOldestOrLater {A = A} key e.order) d (inl (refl, refl), later m h))
      (Any-perm (IsOldest {A = A} key e.order) d (inl (refl, refl))) (inl refl)
  where
    later :
        (m : List (Key × CacheEntry A))
        → All (λ (x : Key × CacheEntry A). e.order < x.1.order) m
        → All (IsOldestOrLater key e.order) m
    later [] h = tt
    later (x ∷ m) (p, h) = (inr p, later m h)
