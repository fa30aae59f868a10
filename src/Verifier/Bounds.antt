-- ===== src/Verifier/Bounds.antt =====
-- The freshness tolerance that a verifier can have.
use billy.Base.{ℕ, ◌*◌, ◌≤◌, ◌<◌, List, none, ◌≡◌, ◌≢◌, inl, inr, arith}
use billy.Base.Int.{pos, pos_part, ◌≤ℤ◌}
use billy.Errors.{ok, Result-cases}
use billy.Timestamp.{second}
use billy.Verifier.{
  Verifier, Setting, LogLine, finish, new, apply_settings, initial, effective_tolerance,
  max_tolerance,
}

module _ {Pool Client Logger : Type 0} where
  -- The window that the freshness check is given is never empty and never above 150 seconds, for
  -- every verifier, however it was built.
  pub effective_tolerance_bounds :
      (v : Verifier Pool Client Logger)
      → (t : ℕ) × (effective_tolerance v ≡ pos t) × (0 < t) × (t ≤ 150 * second)
  unfolding effective_tolerance
  effective_tolerance_bounds v =
      (pos_part (effective_tolerance v), ground arith, ground arith, ground arith)

  not_negative :
      (default : Logger) (v w : Verifier Pool Client Logger) (lines : List LogLine)
      → finish default v ≡ ok (w, lines)
      → pos 0 ≤ℤ v.tolerance
  unfolding finish
  not_negative default v w lines h = ground arith

  finish_bounds :
      (default : Logger) (v w : Verifier Pool Client Logger) (lines : List LogLine)
      → finish default v ≡ ok (w, lines)
      → (pos 0 ≤ℤ w.tolerance)
        × (w.tolerance ≤ℤ max_tolerance)
        × (w.log ≢ none)
        × (effective_tolerance w ≡ effective_tolerance v)
  unfolding finish effective_tolerance
  finish_bounds default v w lines h = (ground arith, ground arith, ground arith, ground arith)

  -- A verifier that `New` returns has a tolerance from 0 to 150 seconds and a logger. Clamping does not
  -- change the window: it is the one that the tolerance set by the options gives. A negative tolerance
  -- set by the options is never returned.
  pub new_bounds :
      (default : Logger) (opts : List (Setting Pool Client Logger))
      (w : Verifier Pool Client Logger) (lines : List LogLine)
      → new default opts ≡ ok (w, lines)
      → (v : Verifier Pool Client Logger) × (apply_settings opts initial ≡ ok v)
        × (pos 0 ≤ℤ v.tolerance)
        × ((pos 0 ≤ℤ w.tolerance)
            × (w.tolerance ≤ℤ max_tolerance)
            × (w.log ≢ none)
            × (effective_tolerance w ≡ effective_tolerance v))
  unfolding new
  new_bounds default opts w lines h = elim (Result-cases (apply_settings opts initial)) [
    | inl (v, e) ↦
        let f : finish default v ≡ ok (w, lines) = rw (e, new) at h in
        (v, e, not_negative default v w lines f, finish_bounds default v w lines f)
    | inr (n, e) ↦ cc (rw (e, new) at h)
  ]
