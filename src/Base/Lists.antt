-- ===== src/Base/Lists.antt =====
-- Lists measured by native numbers, tests on lists of bytes, and a predicate on every element.
use Prim.Native.Nat.{ℕ, zero, suc, ◌+◌, ◌≤◌}
use mathlib.Core.Bool.{Bool, true, false, ◌&&◌, ◌||◌}
use mathlib.Core.List.{List, [], ◌∷◌, ◌++◌, reverse_aux}
use mathlib.Core.Logic.{◌↔◌}
use mathlib.Core.Path.{◌≡◌, refl, ap₂, subst}
use native.Mathlib.Omega.{arith}
use billy.Base.Tests.{◌==◌, ==_iff, and-eq-true}

module _ {ℓ} {A : Type ℓ} where
  abbrev pub length : List A → ℕ
  length [] = 0
  length (a ∷ s) = suc (length s)

  abbrev pub take : ℕ → List A → List A
  take zero s = []
  take (suc k) [] = []
  take (suc k) (a ∷ s) = a ∷ take k s

  pub length-append : (s t : List A) → length (s ++ t) ≡ length s + length t
  length-append [] t = omega arith
  length-append (a ∷ s) t = omega (arith, length-append s t)

  pub length-take-le : (k : ℕ) (s : List A) → length (take k s) ≤ k
  length-take-le zero s = omega arith
  length-take-le (suc k) [] = omega arith
  length-take-le (suc k) (a ∷ s) = omega (arith, length-take-le k s)

  pub length-take_of_le : (k : ℕ) (s : List A) → k ≤ length s → length (take k s) ≡ k
  length-take_of_le zero s enough = omega arith
  length-take_of_le (suc k) [] enough = absurd (omega arith)
  length-take_of_le (suc k) (a ∷ s) enough = omega (arith, length-take_of_le k s (omega arith))

  pub take_of_length-le : (k : ℕ) (s : List A) → length s ≤ k → take k s ≡ s
  take_of_length-le zero [] short = refl
  take_of_length-le (suc k) [] short = refl
  take_of_length-le zero (a ∷ s) short = absurd (omega arith)
  take_of_length-le (suc k) (a ∷ s) short =
      let rest : take k s ≡ s = take_of_length-le k s (omega arith) in rw rest

  abbrev pub all : (A → Bool) → List A → Bool
  all p [] = true
  all p (x ∷ xs) = p x && all p xs

  abbrev pub any : (A → Bool) → List A → Bool
  any p [] = false
  any p (x ∷ xs) = p x || any p xs

  abbrev pub is_empty : List A → Bool
  is_empty [] = true
  is_empty (x ∷ xs) = false

module _ {ℓ κ} {A : Type ℓ} (P : A → Type κ) where
  abbrev pub All : List A → Type κ
  All [] = Unit
  All (x ∷ xs) = P x × All xs

  pub All-append : (xs ys : List A) → All xs → All ys → All (xs ++ ys)
  All-append [] ys h k = k
  All-append (x ∷ xs) ys (p, h) k = (p, All-append xs ys h k)

  pub All-reverse_aux : (xs ys : List A) → All xs → All ys → All (reverse_aux xs ys)
  All-reverse_aux [] ys _ k = k
  All-reverse_aux (x ∷ xs) ys (p, h) k = All-reverse_aux xs (x ∷ ys) h (p, k)

-- Equality of byte sequences.
unfoldable pub bytes_eq : List ℕ → List ℕ → Bool
bytes_eq [] [] = true
bytes_eq [] (y ∷ ys) = false
bytes_eq (x ∷ xs) [] = false
bytes_eq (x ∷ xs) (y ∷ ys) = x == y && bytes_eq xs ys

bytes_eq→eq : (xs ys : List ℕ) → bytes_eq xs ys ≡ true → xs ≡ ys
unfolding bytes_eq
bytes_eq→eq [] [] h = refl
bytes_eq→eq [] (y ∷ ys) h = cc
bytes_eq→eq (x ∷ xs) [] h = cc
bytes_eq→eq (x ∷ xs) (y ∷ ys) h =
    let (p, q) = and-eq-true (x == y) _ h in ap₂ ◌∷◌ ((==_iff x y).0 p) (bytes_eq→eq xs ys q)

pub bytes_eq_refl : (xs : List ℕ) → bytes_eq xs xs ≡ true
unfolding bytes_eq
bytes_eq_refl [] = refl
bytes_eq_refl (x ∷ xs) = ground (arith, bytes_eq_refl xs)

pub bytes_eq_iff : (xs ys : List ℕ) → (bytes_eq xs ys ≡ true) ↔ (xs ≡ ys)
bytes_eq_iff xs ys =
    (bytes_eq→eq xs ys, λ e. subst (λ zs. bytes_eq xs zs ≡ true) e (bytes_eq_refl xs))
