-- ===== src/Verifier/Examples.antt =====
-- Instances of the theorems on the configuration.
use billy.Base.{ℕ, ◌*◌, [], ◌∷◌, ◌≡◌, ◌≢◌, refl, some, none}
use billy.Base.Int.{pos, ◌≤ℤ◌}
use billy.Errors.{ok}
use billy.Timestamp.{second}
use billy.Verifier.{
  Verifier, Setting, clamping, initial, with_tolerance, max_tolerance, apply_settings, finish, new,
  effective_tolerance,
}
use billy.Verifier.Bounds.{new_bounds}

abbrev hour : Setting ℕ ℕ ℕ
hour = with_tolerance (pos (3600 * second))

abbrev clamped : Verifier ℕ ℕ ℕ
clamped = record initial { tolerance = max_tolerance; log = some 1 }

clamped_runs : new 1 (none ∷ hour ∷ []) ≡ ok (clamped, clamping (pos (3600 * second)) ∷ [])
unfolding new apply_settings finish
clamped_runs = refl

new_bounds_example :
    (v : Verifier ℕ ℕ ℕ) × (apply_settings (none ∷ hour ∷ []) initial ≡ ok v)
    × (pos 0 ≤ℤ v.tolerance)
    × ((pos 0 ≤ℤ clamped.tolerance)
        × (clamped.tolerance ≤ℤ max_tolerance)
        × (clamped.log ≢ none)
        × (effective_tolerance clamped ≡ effective_tolerance v))
new_bounds_example =
    new_bounds 1 (none ∷ hour ∷ []) clamped (clamping (pos (3600 * second)) ∷ []) clamped_runs
