-- ===== src/Timestamp/Window.antt =====
-- The freshness window: what the saturating, wrapping arithmetic of the check accepts.
use billy.Base.{
  ℕ, ◌*◌, if◌then◌else◌, ◌+◌, ◌-◌, ◌^◌, ◌<◌, ◌≤◌, List, String, str_eq, str_eq_iff, false, ◌≡◌, ◌≢◌,
  ◌↔◌, ◌⊎◌, inl, inr, arith,
}
use billy.Base.Int.{ℤ, pos, pos_part, neg_part, distance}
use billy.Errors.{Result, ok, err, Error, Result-cases, Foreign, WrapsOne, stale_timestamp}
use billy.Timestamp.{
  TimestampEnvelope, second, is_outside, is_skill_event, allowed_for, verify_envelope,
  verify_timestamp,
}

-- `ts` is at least 2 ^ 63 nanoseconds after `now`.
abbrev pub IsFarFuture : ℤ → ℤ → Type 0
IsFarFuture now ts = pos_part now + neg_part ts + 2 ^ 63 ≤ pos_part ts + neg_part now

fresh_of_inside :
    (now ts : ℤ) (allowed : ℕ)
    → allowed < 2 ^ 63 - 1
    → is_outside now ts (pos allowed) ≡ false
    → (distance now ts ≤ allowed) ⊎ IsFarFuture now ts
unfolding is_outside
fresh_of_inside now ts allowed h k = ground arith

inside_of_close :
    (now ts : ℤ) (allowed : ℕ)
    → allowed < 2 ^ 63 - 1
    → distance now ts ≤ allowed
    → is_outside now ts (pos allowed) ≡ false
unfolding is_outside
inside_of_close now ts allowed h k = ground arith

inside_of_far :
    (now ts : ℤ) (allowed : ℕ) → IsFarFuture now ts → is_outside now ts (pos allowed) ≡ false
unfolding is_outside
inside_of_far now ts allowed k = ground arith

-- The test passes in the window, and also where the difference saturates and its negation wraps.
pub is_outside_iff :
    (now ts : ℤ) (allowed : ℕ)
    → allowed < 2 ^ 63 - 1
    → (is_outside now ts (pos allowed) ≡ false) ↔ ((distance now ts ≤ allowed) ⊎ IsFarFuture now ts)
is_outside_iff now ts allowed h = (
  fresh_of_inside now ts allowed h,
  elim [ inl k ↦ inside_of_close now ts allowed h k | inr k ↦ inside_of_far now ts allowed k ],
)

-- The width of the window, in nanoseconds.
pub window : String → ℕ → ℕ
window type tolerance = if is_skill_event type then 3600 * second else tolerance

allowed_for-pos : (type : String) (t : ℕ) → allowed_for type (pos t) ≡ pos (window type t)
unfolding allowed_for window
allowed_for-pos type t = ground arith

window_small : (type : String) (t : ℕ) → t ≤ 150 * second → window type t < 2 ^ 63 - 1
unfolding window
window_small type t h = ground arith

module _ (parse_time : String → Result Foreign ℤ) where
  -- The envelope's timestamp is there, parses as `ts`, and passes the test.
  abbrev IsUsable : TimestampEnvelope → ℤ → ℕ → ℤ → Type 0
  IsUsable env now t ts =
      (env.timestamp ≢ "")
      × (parse_time env.timestamp ≡ ok ts)
      × (is_outside now ts (pos (window env.type t)) ≡ false)

  envelope_accepted :
      (env : TimestampEnvelope) (now ts : ℤ) (t : ℕ)
      → IsUsable env now t ts
      → verify_envelope parse_time env now (pos t) ≡ ok tt
  unfolding verify_envelope
  envelope_accepted env now ts t (present, parses, inside) =
      let p : str_eq env.timestamp "" ≡ false = ground (arith, str_eq_iff env.timestamp "") in
      simp (p, parses, allowed_for-pos, inside)

  accepted_envelope :
      (env : TimestampEnvelope) (now : ℤ) (t : ℕ)
      → verify_envelope parse_time env now (pos t) ≡ ok tt
      → (ts : ℤ) × IsUsable env now t ts
  unfolding verify_envelope
  accepted_envelope env now t h = elim (Result-cases (parse_time env.timestamp)) [
    | inl (ts, e) ↦ (
      ts,
      (ground (arith, str_eq_iff env.timestamp ""), e, ground (arith, allowed_for-pos env.type t)),
    )
    | inr (cause, e) ↦ absurd (ground arith)
  ]

  envelope_error :
      (env : TimestampEnvelope) (now tolerance : ℤ) {e : Error}
      → verify_envelope parse_time env now tolerance ≡ err e
      → WrapsOne stale_timestamp e
  unfolding verify_envelope
  envelope_error env now tolerance h = ground arith

module _ (unmarshal : List ℕ → Result Foreign TimestampEnvelope)
    (parse_time : String → Result Foreign ℤ) where
  -- The body decodes, and its timestamp is present and parses as `ts`.
  pub record Carries (body : List ℕ) (env : TimestampEnvelope) (ts : ℤ) : Type 0 where
    pub decodes : unmarshal body ≡ ok env
    pub present : env.timestamp ≢ ""
    pub parses : parse_time env.timestamp ≡ ok ts

  verified-Carries :
      (body : List ℕ) (now : ℤ) (t : ℕ)
      → t ≤ 150 * second
      → verify_timestamp unmarshal parse_time body now (pos t) ≡ ok tt
      → (env : TimestampEnvelope) × (ts : ℤ) × Carries body env ts
        × ((distance now ts ≤ window env.type t) ⊎ IsFarFuture now ts)
  unfolding verify_timestamp
  verified-Carries body now t small h = elim (Result-cases (unmarshal body)) [
    | inl (env, e) ↦
        let (ts, (present, parses, inside)) =
          accepted_envelope parse_time env now t (rw (e, verify_timestamp) at h) in
        (
          env,
          ts,
          record { decodes = e; present = present; parses = parses },
          fresh_of_inside now ts (window env.type t) (window_small env.type t small) inside,
        )
    | inr (cause, e) ↦ absurd (ground arith)
  ]

  Carries-verified :
      (body : List ℕ) (now : ℤ) (t : ℕ) (env : TimestampEnvelope) (ts : ℤ)
      → t ≤ 150 * second
      → Carries body env ts
      → (distance now ts ≤ window env.type t) ⊎ IsFarFuture now ts
      → verify_timestamp unmarshal parse_time body now (pos t) ≡ ok tt
  unfolding verify_timestamp
  Carries-verified body now t env ts small c fresh =
      rw (c.decodes, verify_timestamp)
        (envelope_accepted parse_time env now ts t (
          c.present,
          c.parses,
          (is_outside_iff now ts (window env.type t) (window_small env.type t small)).1 fresh,
        ))

  -- With a tolerance of at most 150 seconds, a body passes exactly when it decodes and its timestamp
  -- is present, parses, and is at most an hour (for the five skill event types) or the tolerance (for
  -- any other type) away from now, or is 2 ^ 63 nanoseconds or more in the future.
  pub verify_timestamp-eq-ok_iff :
      (body : List ℕ) (now : ℤ) (t : ℕ)
      → t ≤ 150 * second
      → (verify_timestamp unmarshal parse_time body now (pos t) ≡ ok tt) ↔ (
          (env : TimestampEnvelope) × (ts : ℤ) × Carries body env ts
          × ((distance now ts ≤ window env.type t) ⊎ IsFarFuture now ts))
  verify_timestamp-eq-ok_iff body now t small =
      (verified-Carries body now t small, λ c. Carries-verified body now t c.0 c.1 small c.2 c.3)

  -- A timestamp 2 ^ 63 nanoseconds (some 292 years) or more after now passes, at every tolerance from
  -- 0 to 150 seconds: the difference saturates at the least `int64`, whose negation is itself.
  pub far_future_passes :
      (body : List ℕ) (now : ℤ) (t : ℕ) (env : TimestampEnvelope) (ts : ℤ)
      → t ≤ 150 * second
      → Carries body env ts
      → IsFarFuture now ts
      → verify_timestamp unmarshal parse_time body now (pos t) ≡ ok tt
  far_future_passes body now t env ts small c far =
      Carries-verified body now t env ts small c (inr far)

  -- Every refusal by the freshness check wraps the stale-timestamp sentinel and no other.
  pub verify_timestamp-WrapsOne :
      (body : List ℕ) (now tolerance : ℤ) (e : Error)
      → verify_timestamp unmarshal parse_time body now tolerance ≡ err e
      → WrapsOne stale_timestamp e
  unfolding verify_timestamp
  verify_timestamp-WrapsOne body now tolerance e h = elim (Result-cases (unmarshal body)) [
    | inl (env, d) ↦ envelope_error parse_time env now tolerance (rw (d, verify_timestamp) at h)
    | inr (cause, d) ↦ ground arith
  ]
