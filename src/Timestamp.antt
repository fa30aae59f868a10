-- ===== src/Timestamp.antt =====
-- pkg/alexaverify/timestamp.go, and the constants of pkg/alexaverify/constants.go on times.
--
-- An instant is the integer number of nanoseconds since the Unix epoch; a `time.Duration` is an
-- `int64` number of nanoseconds. `json.Unmarshal` into the envelope and `time.Parse` are arguments.
pub mod Window
mod Examples
use billy.Base.{
  ℕ, ◌*◌, List, [], ◌∷◌, String, str_eq, Bool, true, false, if◌then◌else◌, any, ◌-◌, ◌^◌,
}
use billy.Base.Int.{ℤ, pos, negsuc, ◌-ℤ◌, ltb_ℤ, max_int64, min_int64}
use billy.Errors.{Result, ok, err, Error, Foreign, errorf, errorf_both, stale_timestamp}

abbrev pub second : ℕ
second = 1_000_000_000

-- constants.go
abbrev pub skill_event_tolerance : ℤ
skill_event_tolerance = pos (3600 * second)

abbrev pub skill_event_request_types : List String
skill_event_request_types =
    "AlexaSkillEvent.SkillEnabled" ∷ "AlexaSkillEvent.SkillDisabled"
    ∷ "AlexaSkillEvent.SkillPermissionChanged" ∷ "AlexaSkillEvent.SkillPermissionAccepted"
    ∷ "AlexaSkillEvent.SkillAccountLinked" ∷ []

pub record TimestampEnvelope : Type 0 where
  pub type : String
  pub request_id : String
  pub timestamp : String

-- `Time.Sub`: the difference, saturated at the bounds of `int64`.
unfoldable pub time_sub : ℤ → ℤ → ℤ
unfolding ◌-ℤ◌
time_sub t u =
    let d = t -ℤ u in
    if ltb_ℤ max_int64 d then max_int64 else if ltb_ℤ d min_int64 then min_int64 else d

-- `-d` on `int64`: the least integer is its own negation.
unfoldable pub duration_neg : ℤ → ℤ
unfolding ◌-ℤ◌
duration_neg d = if ltb_ℤ min_int64 d then pos 0 -ℤ d else min_int64

-- `skillEventRequestTypes[env.Request.Type]`
unfoldable pub is_skill_event : String → Bool
is_skill_event type = any (λ known. str_eq known type) skill_event_request_types

-- The absolute delta, and its comparison with what is allowed.
unfoldable pub is_outside : ℤ → ℤ → ℤ → Bool
unfolding time_sub duration_neg
is_outside now ts allowed =
    let delta = time_sub now ts in
    if ltb_ℤ delta (pos 0) then ltb_ℤ allowed (duration_neg delta) else ltb_ℤ allowed delta

unfoldable pub allowed_for : String → ℤ → ℤ
allowed_for type tolerance = if is_skill_event type then skill_event_tolerance else tolerance

-- What follows the decoding of the envelope.
unfoldable pub verify_envelope :
    (String → Result Foreign ℤ) → TimestampEnvelope → ℤ → ℤ → Result Error (Unit {0})
verify_envelope parse_time env now tolerance =
    if str_eq env.timestamp ""
    then err (errorf stale_timestamp)
    else elim (parse_time env.timestamp) [
      | err cause ↦ err (errorf_both stale_timestamp cause)
      | ok ts ↦
          if is_outside now ts (allowed_for env.type tolerance)
          then err (errorf stale_timestamp)
          else ok tt
    ]

unfoldable pub verify_timestamp :
    (List ℕ → Result Foreign TimestampEnvelope)
    → (String → Result Foreign ℤ)
    → List ℕ
    → ℤ
    → ℤ
    → Result Error (Unit {0})
verify_timestamp unmarshal parse_time body now tolerance = elim (unmarshal body) [
  | err cause ↦ err (errorf_both stale_timestamp cause)
  | ok env ↦ verify_envelope parse_time env now tolerance
]
