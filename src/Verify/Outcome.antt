-- ===== src/Verify/Outcome.antt =====
-- That `Verify` returns, and how its failures are classified.
use billy.Base.{
  ℕ, List, is_empty, ◌≡◌, refl, sym, ap, ◌∙◌, Option, none, some, Bool-cases, inl, inr,
}
use billy.Chain.{ParsedChain}
use billy.Chain.Split.{Progresses}
use billy.Crypto.{Crypto}
use billy.Errors.{
  Result, ok, err, Error, Sentinel, WrapsOne, sentinels, errorf, errorf_both, missing_header,
  stale_timestamp, cert_url_invalid, Result-cases,
}
use billy.Fetch.{HttpClient}
use billy.Load.Outcome.{Ends, load_certificate_chain-Ends}
use billy.Signature.{verify_body_signature, verify_body_signature_error}
use billy.Timestamp.{verify_timestamp}
use billy.Timestamp.Window.{verify_timestamp-WrapsOne}
use billy.Url.Accept.{normalize_parsed-eq-err}
use billy.Url.Normalize.{normalize_cert_chain_url}
use billy.Verifier.{Verifier, now, effective_tolerance}
use billy.Verify.{
  Services, Moment, Header, header_get, signature_header, cert_chain_url_header, load, check_body,
  verify_signature, verify_fresh, verify,
}

WrapsOne-of_eq : {e e' : Error} (s : Sentinel) → e ≡ e' → WrapsOne s e → WrapsOne s e'
WrapsOne-of_eq s q one = sym (ap sentinels q) ∙ one

err_injective : {e e' : Error} → ◌≡◌ {A = Result Error (Unit {0})} (err e) (err e') → e ≡ e'
err_injective q = cc

module _ (x : Crypto) {Logger : Type 0} (env : Services)
    (v : Verifier x.CertPool HttpClient Logger) where
  -- The result is there, and an error in it wraps exactly one sentinel.
  abbrev Classified : Option (Result Error (Unit {0})) → Type 0
  Classified r =
      (outcome : Result Error (Unit {0})) × (r ≡ some outcome)
      × ((e : Error) → outcome ≡ err e → (s : Sentinel) × WrapsOne s e)

  refused : (e : Error) (s : Sentinel) → WrapsOne s e → Classified (some (err e))
  refused e s one = (err e, refl, λ e' q. (s, WrapsOne-of_eq s (err_injective q) one))

  body-Classified :
      (body signature : List ℕ) (r : Option (Result Error (ParsedChain x)))
      → Ends r
      → Classified (check_body x env v body signature r)
  unfolding check_body
  body-Classified body signature none (outcome, run, fails) = cc
  body-Classified body signature (some (err e)) (outcome, run, fails) =
      let (s, one) = fails e (cc) in refused e s (ap sentinels one)
  body-Classified body signature (some (ok chain)) (outcome, run, fails) = (
    verify_body_signature x body signature chain.leaf,
    refl,
    λ e q.
        let (s, one) = verify_body_signature_error x body signature chain.leaf e q in
        (s, ap sentinels one),
  )

  url_error :
      (raw : List ℕ) (e : Error)
      → normalize_cert_chain_url env.parse_url raw ≡ err e
      → (s : Sentinel) × WrapsOne s e
  unfolding normalize_cert_chain_url
  url_error raw e h = elim (Result-cases (env.parse_url raw)) [
    | inr (cause, p) ↦ (
      cert_url_invalid,
      WrapsOne-of_eq {e = errorf_both cert_url_invalid cause} {e' = e} cert_url_invalid
          (cc (rw (p, normalize_cert_chain_url) at h)) refl,
    )
    | inl (u, p) ↦
        let (s, one, _) = normalize_parsed-eq-err u e (rw (p, normalize_cert_chain_url) at h) in
        (s, ap sentinels one)
  ]

  load-Ends : (m : Moment x) (url : List ℕ) → Progresses x → Ends (load x env v m url).result
  unfolding load
  load-Ends m url progresses =
      load_certificate_chain-Ends x v.roots env.network v.http_client m.cache m.later m.visited
        m.address url (now env.time_now v m.second) progresses

  verify-Classified :
      (m : Moment x) (body : List ℕ) (hdr : Header)
      → Progresses x
      → Classified (verify x env v m body hdr).result
  unfolding verify verify_fresh verify_signature
  verify-Classified m body hdr progresses =
      elim (Bool-cases (is_empty (header_get hdr signature_header))) [
        | inl e ↦ rw (e, verify) (refused (errorf missing_header) missing_header refl)
        | inr e ↦ elim (Bool-cases (is_empty (header_get hdr cert_chain_url_header))) [
          | inl e' ↦ rw (e, verify, e') (refused (errorf missing_header) missing_header refl)
          | inr e' ↦
              elim (Result-cases (
                verify_timestamp env.unmarshal env.parse_time body (now env.time_now v m.first)
                  (effective_tolerance v))) [
                    | inr (cause, t) ↦
                        rw (e, verify, e', t, verify_fresh)
                          (refused cause stale_timestamp (
                            verify_timestamp-WrapsOne env.unmarshal env.parse_time body _ _ cause
                              t))
                    | inl (u, t) ↦
                        elim (Result-cases (
                          normalize_cert_chain_url env.parse_url
                            (header_get hdr cert_chain_url_header))) [
                              | inr (cause, n) ↦
                                  let (s, one) = url_error _ cause n in
                                  rw (e, verify, e', t, verify_fresh, n, verify_signature)
                                    (refused cause s one)
                              | inl (url, n) ↦
                                  rw (e, verify, e', t, verify_fresh, n, verify_signature)
                                    (body-Classified body (header_get hdr signature_header) _
                                      (load-Ends m url progresses))
                            ]
                  ]
        ]
      ]

  -- The request is accepted, or refused with an error that wraps one sentinel.
  pub data IsDecided : Option (Result Error (Unit {0})) → Type 0 where
    accepted : IsDecided (some (ok tt))
    rejected : (s : Sentinel) (e : Error) → WrapsOne s e → IsDecided (some (err e))

  decided : (r : Option (Result Error (Unit {0}))) → Classified r → IsDecided r
  decided none (outcome, run, fails) = cc
  decided (some (ok u)) c = IsDecided.accepted
  decided (some (err e)) (outcome, run, fails) =
      let (s, one) = fails e (cc) in IsDecided.rejected s e one

  -- `Verify` always returns, if `pem.Decode` takes input whenever it finds a block: it accepts the
  -- request, or gives an error that wraps exactly one of the package's sentinels.
  pub verify-IsDecided :
      (m : Moment x) (body : List ℕ) (hdr : Header)
      → Progresses x
      → IsDecided (verify x env v m body hdr).result
  verify-IsDecided m body hdr progresses = decided _ (verify-Classified m body hdr progresses)
