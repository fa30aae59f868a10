-- ===== src/Timestamp/Examples.antt =====
-- Instances of the theorems on the freshness window.
use billy.Base.{◌*◌, ◌+◌, ◌^◌, ◌≤◌, String, ◌≡◌, ◌↔◌, ◌⊎◌, refl, arith, false}
use billy.Base.Int.{ℤ, pos, distance}
use billy.Errors.{Result, ok, err, errorf, Foreign, stale_timestamp}
use billy.Timestamp.{
  TimestampEnvelope, second, is_outside, is_skill_event, allowed_for, verify_envelope,
  verify_timestamp,
}
use billy.Timestamp.Window.{
  IsFarFuture, Carries, window, is_outside_iff, verify_timestamp-eq-ok_iff, far_future_passes,
}
use billy.Toy.{services, body}

abbrev sent : TimestampEnvelope
sent = record { type = "IntentRequest"; request_id = "1"; timestamp = "100" }

-- A text is read as a time some three hundred years ahead.
abbrev far : String → Result Foreign ℤ
far text = ok (pos (100 + 2 ^ 63))

abbrev never : String → Result Foreign ℤ
never text = err 4

carried : Carries services.unmarshal far body sent (pos (100 + 2 ^ 63))
carried = record { decodes = refl; present = λ e. cc; parses = refl }

never_runs :
    verify_timestamp services.unmarshal services.parse_time body
      (pos (251 * second))
      (pos (150 * second))
    ≡ err (errorf stale_timestamp)
unfolding verify_timestamp verify_envelope is_outside is_skill_event allowed_for
never_runs = refl

is_outside_iff_example :
    (is_outside (pos 3) (pos 9) (pos 5) ≡ false)
    ↔ ((distance (pos 3) (pos 9) ≤ 5) ⊎ IsFarFuture (pos 3) (pos 9))
is_outside_iff_example = is_outside_iff (pos 3) (pos 9) 5 (omega arith)

verify_timestamp-eq-ok_iff_example :
    (verify_timestamp services.unmarshal services.parse_time body (pos 0) (pos 5) ≡ ok tt) ↔ (
      (env : TimestampEnvelope) × (ts : ℤ) × Carries services.unmarshal services.parse_time body env
        ts
      × ((distance (pos 0) ts ≤ window env.type 5) ⊎ IsFarFuture (pos 0) ts))
verify_timestamp-eq-ok_iff_example =
    verify_timestamp-eq-ok_iff services.unmarshal services.parse_time body (pos 0) 5 (omega arith)

far_future_passes_example : verify_timestamp services.unmarshal far body (pos 100) (pos 5) ≡ ok tt
far_future_passes_example =
    far_future_passes services.unmarshal far body (pos 100) 5 sent (pos (100 + 2 ^ 63))
      (omega arith) carried (omega arith)
