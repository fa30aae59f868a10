-- ===== src/Verify/Egress.antt =====
-- When `Verify` may open a connection.
use billy.Base.{
  ℕ, ◌≤◌, List, [], ◌∷◌, length, is_empty, has_prefix, true, false, ◌≡◌, ◌≢◌, refl, All, Bool-cases,
  inl, inr,
}
use billy.Crypto.{Crypto}
use billy.Errors.{ok, Result-cases}
use billy.Fetch.{HttpClient}
use billy.Load.Outcome.{load_certificate_chain_contacts}
use billy.Timestamp.{verify_timestamp}
use billy.Url.Key.{fetch_prefix, normalize_cert_chain_url-has_prefix}
use billy.Url.Normalize.{normalize_cert_chain_url}
use billy.Verifier.{Verifier, now, effective_tolerance}
use billy.Verify.{
  Services, Moment, Header, header_get, signature_header, cert_chain_url_header, load,
  verify_signature, verify_fresh, verify,
}

module _ (x : Crypto) {Logger : Type 0} (env : Services)
    (v : Verifier x.CertPool HttpClient Logger) where
  -- The checks that come before any connection have passed.
  pub record MayConnect (m : Moment x) (body : List ℕ) (hdr : Header) (url : List ℕ) : Type 0 where
    pub signature : header_get hdr signature_header ≢ []
    pub fresh :
        verify_timestamp env.unmarshal env.parse_time body
          (now env.time_now v m.first)
          (effective_tolerance v)
        ≡ ok tt
    pub normalized :
        normalize_cert_chain_url env.parse_url (header_get hdr cert_chain_url_header) ≡ ok url
    pub prefix : has_prefix url fetch_prefix ≡ true

  -- No connection, or only to a URL that may be contacted, twice at most.
  data Connects (m : Moment x) (body : List ℕ) (hdr : Header) : List (List ℕ) → Type 0 where
    quiet : Connects m body hdr []
    to :
        (url : List ℕ) (contacted : List (List ℕ))
        → MayConnect m body hdr url
        → All (λ u. u ≡ url) contacted
        → length contacted ≤ 2
        → Connects m body hdr contacted

  load_contacts :
      (m : Moment x) (url : List ℕ)
      → All (λ u. u ≡ url) (load x env v m url).contacted
        × (length (load x env v m url).contacted ≤ 2)
  unfolding load
  load_contacts m url =
      load_certificate_chain_contacts x v.roots env.network v.http_client m.cache m.later m.visited
        m.address url (now env.time_now v m.second)

  not_empty : (s : List ℕ) → is_empty s ≡ false → s ≢ []
  not_empty [] h = cc
  not_empty (c ∷ s) h = λ e. cc

  connects :
      (m : Moment x) (body : List ℕ) (hdr : Header)
      → Connects m body hdr (verify x env v m body hdr).contacted
  unfolding verify verify_fresh verify_signature
  connects m body hdr = elim (Bool-cases (is_empty (header_get hdr signature_header))) [
    | inl e ↦ rw (e, verify) Connects.quiet
    | inr e ↦ elim (Bool-cases (is_empty (header_get hdr cert_chain_url_header))) [
      | inl e' ↦ rw (e, verify, e') Connects.quiet
      | inr e' ↦
          elim (Result-cases (
            verify_timestamp env.unmarshal env.parse_time body (now env.time_now v m.first)
              (effective_tolerance v))) [
                | inr (cause, t) ↦ rw (e, verify, e', t, verify_fresh) Connects.quiet
                | inl (u, t) ↦
                    elim (Result-cases (
                      normalize_cert_chain_url env.parse_url
                        (header_get hdr cert_chain_url_header))) [
                          | inr (cause, n) ↦
                              rw (e, verify, e', t, verify_fresh, n, verify_signature)
                                Connects.quiet
                          | inl (url, n) ↦
                              rw (e, verify, e', t, verify_fresh, n, verify_signature)
                                (Connects.to url (load x env v m url).contacted
                                  (record {
                                    signature = not_empty _ e;
                                    fresh = t;
                                    normalized = n;
                                    prefix =
                                        normalize_cert_chain_url-has_prefix env.parse_url _ url n;
                                  })
                                  (load_contacts m url).0 (load_contacts m url).1)
                        ]
              ]
    ]
  ]

  connected :
      (m : Moment x) (body : List ℕ) (hdr : Header) (contacted : List (List ℕ))
      → Connects m body hdr contacted
      → contacted ≢ []
      → (url : List ℕ) × MayConnect m body hdr url
        × All (λ u. u ≡ url) contacted
        × (length contacted ≤ 2)
  connected m body hdr contacted Connects.quiet some_url = absurd (some_url refl)
  connected m body hdr contacted (Connects.to url same may all few) some_url = (url, may, all, few)

  -- If `Verify` contacts anything, then the signature header was there, the timestamp had passed, the
  -- chain URL had been normalised, and all that is contacted, at most twice, is that normalised URL,
  -- which lies below https://s3.amazonaws.com/echo.api/.
  pub verify_contacts :
      (m : Moment x) (body : List ℕ) (hdr : Header)
      → (verify x env v m body hdr).contacted ≢ []
      → (url : List ℕ) × MayConnect m body hdr url
        × All (λ u. u ≡ url) (verify x env v m body hdr).contacted
        × (length (verify x env v m body hdr).contacted ≤ 2)
  verify_contacts m body hdr = connected m body hdr _ (connects m body hdr)
