-- ===== src/Verify/Sound.antt =====
-- What a request has been checked for when `Verify` accepts it.
use billy.Base.{ℕ, ◌≤◌, List, is_empty, ◌≡◌, ◌⊎◌, refl, Option, none, some, Bool-cases, inl, inr}
use billy.Base.Int.{ℤ, pos, distance}
use billy.Chain.{ParsedChain}
use billy.Crypto.{Crypto}
use billy.Errors.{Result, ok, err, Error, Result-cases}
use billy.Fetch.{HttpClient}
use billy.Load.Trust.{AllTrusted, IsUsable, IsSound, load_certificate_chain-IsSound}
use billy.Signature.{IsSigned, verify_body_signature-eq-ok_iff}
use billy.Timestamp.{TimestampEnvelope, verify_timestamp}
use billy.Timestamp.Window.{Carries, IsFarFuture, window, verify_timestamp-eq-ok_iff}
use billy.Url.Normalize.{normalize_cert_chain_url}
use billy.Verifier.{Verifier, now, effective_tolerance}
use billy.Verifier.Bounds.{effective_tolerance_bounds}
use billy.Verify.{
  Services, Moment, Header, header_get, signature_header, cert_chain_url_header, load, check_body,
  verify_signature, verify_fresh, verify,
}

module _ (x : Crypto) {Logger : Type 0} (env : Services)
    (v : Verifier x.CertPool HttpClient Logger) where
  -- The body carries a timestamp in the window, or one so far ahead that the test cannot tell.
  pub record IsFresh (body : List ℕ) (at : ℤ) : Type 0 where
    pub envelope : TimestampEnvelope
    pub ts : ℤ
    pub carries : Carries env.unmarshal env.parse_time body envelope ts
    pub tolerance : ℕ
    pub tolerated : effective_tolerance v ≡ pos tolerance
    pub inside : (distance at ts ≤ window envelope.type tolerance) ⊎ IsFarFuture at ts

  pub record IsAuthentic (m : Moment x) (body : List ℕ) (hdr : Header) : Type 0 where
    pub fresh : IsFresh body (now env.time_now v m.first)
    pub url : List ℕ
    pub normalized :
        normalize_cert_chain_url env.parse_url (header_get hdr cert_chain_url_header) ≡ ok url
    pub chain : ParsedChain x
    pub usable : IsUsable x v.roots chain (now env.time_now v m.second)
    pub signed : IsSigned x body (header_get hdr signature_header) chain.leaf

  IsFresh-of_ok :
      (body : List ℕ) (at : ℤ)
      → verify_timestamp env.unmarshal env.parse_time body at (effective_tolerance v) ≡ ok tt
      → IsFresh body at
  IsFresh-of_ok body at h =
      let (t, tolerated, _, small) = effective_tolerance_bounds v in
      let (envelope, ts, carries, inside) =
        (verify_timestamp-eq-ok_iff env.unmarshal env.parse_time body at t small).0
          (rw tolerated at h) in
      record {
        envelope = envelope;
        ts = ts;
        carries = carries;
        tolerance = t;
        tolerated = tolerated;
        inside = inside;
      }

  check_body_ok :
      (body signature : List ℕ) (r : Option (Result Error (ParsedChain x)))
      → check_body x env v body signature r ≡ some (ok tt)
      → (chain : ParsedChain x) × (r ≡ some (ok chain)) × IsSigned x body signature chain.leaf
  unfolding check_body
  check_body_ok body signature none h = cc
  check_body_ok body signature (some (err e)) h = cc
  check_body_ok body signature (some (ok chain)) h =
      (chain, refl, (verify_body_signature-eq-ok_iff x body signature chain.leaf).0 (cc))

  pub load-IsSound :
      (m : Moment x) (url : List ℕ)
      → AllTrusted x v.roots m.cache
      → AllTrusted x v.roots m.later
      → IsSound x v.roots (now env.time_now v m.second) (load x env v m url)
  unfolding load
  load-IsSound m url before after =
      load_certificate_chain-IsSound x v.roots env.network v.http_client m.cache m.later m.visited
        m.address url (now env.time_now v m.second) before after

  -- `Verify` accepts a request only if the body carries a fresh timestamp (or one 2 ^ 63 nanoseconds or
  -- more ahead), the chain URL is one that `normalizeCertChainURL` accepts, and the signature header
  -- is a signature of the exact body by the RSA key of the leaf of a chain that was validated against
  -- the verifier's roots, is issued for the Alexa API domain, and was checked for the current time.
  -- This holds whatever other requests do to the cache meanwhile, as long as they keep it trusted.
  pub verify-IsAuthentic :
      (m : Moment x) (body : List ℕ) (hdr : Header)
      → AllTrusted x v.roots m.cache
      → AllTrusted x v.roots m.later
      → (verify x env v m body hdr).result ≡ some (ok tt)
      → IsAuthentic m body hdr
  unfolding verify verify_fresh verify_signature
  verify-IsAuthentic m body hdr before after h =
      elim (Bool-cases (is_empty (header_get hdr signature_header))) [
        | inl e ↦ cc (rw (e, verify) at h)
        | inr e ↦ elim (Bool-cases (is_empty (header_get hdr cert_chain_url_header))) [
          | inl e' ↦ cc (rw (e, verify, e') at h)
          | inr e' ↦
              elim (Result-cases (
                verify_timestamp env.unmarshal env.parse_time body (now env.time_now v m.first)
                  (effective_tolerance v))) [
                    | inr (cause, t) ↦ cc (rw (e, verify, e', t, verify_fresh) at h)
                    | inl (u, t) ↦
                        elim (Result-cases (
                          normalize_cert_chain_url env.parse_url
                            (header_get hdr cert_chain_url_header))) [
                              | inr (cause, n) ↦
                                  cc (rw (e, verify, e', t, verify_fresh, n, verify_signature) at h)
                              | inl (url, n) ↦
                                  let (chain, loaded, signed) =
                                    check_body_ok body (header_get hdr signature_header)
                                      (load x env v m url).result
                                      (rw (e, verify, e', t, verify_fresh, n, verify_signature) at
                                        h) in
                                  record {
                                    fresh = IsFresh-of_ok body _ t;
                                    url = url;
                                    normalized = n;
                                    chain = chain;
                                    usable =
                                        (load-IsSound m url before after).returned chain loaded;
                                    signed = signed;
                                  }
                            ]
                  ]
        ]
      ]

  signature-AllTrusted :
      (m : Moment x) (body signature cert_chain_url : List ℕ)
      → AllTrusted x v.roots m.cache
      → AllTrusted x v.roots m.later
      → AllTrusted x v.roots (verify_signature x env v m body signature cert_chain_url).cache
  unfolding verify_signature
  signature-AllTrusted m body signature cert_chain_url before after =
      elim (Result-cases (normalize_cert_chain_url env.parse_url cert_chain_url)) [
        | inr (cause, n) ↦ rw (n, verify_signature) after
        | inl (url, n) ↦ rw (n, verify_signature) (load-IsSound m url before after).cached
      ]

  -- Whatever a request holds and however `Verify` ends, it leaves only trusted chains in a cache that
  -- held only trusted chains, so the condition of the acceptance theorem lasts from call to call.
  pub verify-AllTrusted :
      (m : Moment x) (body : List ℕ) (hdr : Header)
      → AllTrusted x v.roots m.cache
      → AllTrusted x v.roots m.later
      → AllTrusted x v.roots (verify x env v m body hdr).cache
  unfolding verify verify_fresh
  verify-AllTrusted m body hdr before after =
      elim (Bool-cases (is_empty (header_get hdr signature_header))) [
        | inl e ↦ rw (e, verify) after
        | inr e ↦ elim (Bool-cases (is_empty (header_get hdr cert_chain_url_header))) [
          | inl e' ↦ rw (e, verify, e') after
          | inr e' ↦
              elim (Result-cases (
                verify_timestamp env.unmarshal env.parse_time body (now env.time_now v m.first)
                  (effective_tolerance v))) [
                    | inr (cause, t) ↦ rw (e, verify, e', t, verify_fresh) after
                    | inl (u, t) ↦
                        rw (e, verify, e', t, verify_fresh)
                          (signature-AllTrusted m body _ _ before after)
                  ]
        ]
      ]
