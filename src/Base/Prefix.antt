-- ===== src/Base/Prefix.antt =====
-- `strings.HasPrefix` over byte sequences.
use Prim.Native.Nat.{ℕ}
use mathlib.Core.Bool.{Bool, true, false, ◌&&◌}
use mathlib.Core.List.{List, [], ◌∷◌, ◌++◌}
use mathlib.Core.Path.{◌≡◌, refl, ap₂}
use native.Mathlib.Omega.{arith}
use billy.Base.Tests.{◌==◌, ==_iff, and-eq-true}

unfoldable pub has_prefix : List ℕ → List ℕ → Bool
has_prefix s [] = true
has_prefix [] (p ∷ ps) = false
has_prefix (c ∷ s) (p ∷ ps) = c == p && has_prefix s ps

pub has_prefix-append : (p s : List ℕ) → has_prefix (p ++ s) p ≡ true
unfolding has_prefix
has_prefix-append [] [] = refl
has_prefix-append [] (c ∷ s) = refl
has_prefix-append (x ∷ p) s = ground (arith, has_prefix-append p s)

pub append_of_has_prefix :
    (s p : List ℕ) → has_prefix s p ≡ true → (rest : List ℕ) × (s ≡ p ++ rest)
unfolding has_prefix
append_of_has_prefix [] [] h = ([], refl)
append_of_has_prefix (c ∷ s) [] h = (c ∷ s, refl)
append_of_has_prefix [] (p ∷ ps) h = cc
append_of_has_prefix (c ∷ s) (p ∷ ps) h =
    let (here, later) = and-eq-true (c == p) _ h in
    let (rest, e) = append_of_has_prefix s ps later in (rest, ap₂ ◌∷◌ ((==_iff c p).0 here) e)
