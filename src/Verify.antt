-- ===== src/Verify.antt =====
-- `Verify`, `verifySignature` and `Warm` of pkg/alexaverify/verify.go, and `http.Header.Get`.
--
-- A call reads the clock at two moments, and gives the cache after it, the URLs that it contacted, and
-- its result. `none` in the result means that the fuel of `parse_pem_chain` ran out.
pub mod Sound
pub mod Egress
pub mod Outcome
mod Examples
use billy.Base.{
  ℕ, ◌+◌, ◌-◌, ◌==◌, leb, bytes_eq, codes, List, [], ◌∷◌, is_empty, String, Bool, true, false, ◌&&◌,
  if◌then◌else◌, Option, none, some,
}
use billy.Base.Int.{ℤ}
use billy.Cache.{Key, CacheEntry, CertCache}
use billy.Chain.{ParsedChain}
use billy.Crypto.{Crypto}
use billy.Errors.{Result, ok, err, Error, Foreign, errorf, missing_header}
use billy.Fetch.{Network, HttpClient}
use billy.Load.{Loaded, load_certificate_chain}
use billy.Signature.{verify_body_signature}
use billy.Timestamp.{TimestampEnvelope, verify_timestamp}
use billy.Url.Normalize.{Url, normalize_cert_chain_url}
use billy.Verifier.{Verifier, now, effective_tolerance}

-- constants.go
abbrev pub signature_header : List ℕ
signature_header = codes "Signature-256"

abbrev pub cert_chain_url_header : List ℕ
cert_chain_url_header = codes "SignatureCertChainUrl"

-- `http.Header`: canonical names with their values.
abbrev pub Header : Type 0
Header = List (List ℕ × List (List ℕ))

abbrev upper : ℕ → ℕ
upper c = if leb b'a' c && leb c b'z' then c - 32 else c

abbrev lower : ℕ → ℕ
lower c = if leb b'A' c && leb c b'Z' then c + 32 else c

-- `textproto.CanonicalMIMEHeaderKey`, on names of letters, digits and hyphens.
unfoldable pub canonical_from : Bool → List ℕ → List ℕ
canonical_from first [] = []
canonical_from first (c ∷ s) = (if first then upper c else lower c) ∷ canonical_from (c == b'-') s

unfoldable pub first_value : List ℕ → Header → List ℕ
first_value key [] = []
first_value key ((k, values) ∷ h) =
    if bytes_eq k key then (elim values [ [] ↦ [] | v ∷ _ ↦ v ]) else first_value key h

-- `Header.Get`
unfoldable pub header_get : Header → List ℕ → List ℕ
header_get h key = first_value (canonical_from true key) h

-- What a verifier takes from its surroundings.
pub record Services : Type 0 where
  pub parse_url : List ℕ → Result Foreign Url
  pub unmarshal : List ℕ → Result Foreign TimestampEnvelope
  pub parse_time : String → Result Foreign ℤ
  pub time_now : ℕ → ℤ
  pub network : Network

-- What else happens around one call: the cache as this call's look-up meets it and as its later
-- change meets it, the order in which the map is visited, the address of a new chain, and the two
-- moments at which the clock is read.
pub record Moment (x : Crypto) : Type 0 where
  pub cache : CertCache (ParsedChain x)
  pub later : CertCache (ParsedChain x)
  pub visited : List (Key × CacheEntry (ParsedChain x))
  pub address : ℕ
  pub first : ℕ
  pub second : ℕ

pub record Verified (x : Crypto) : Type 0 where
  pub cache : CertCache (ParsedChain x)
  pub contacted : List (List ℕ)
  pub result : Option (Result Error (Unit {0}))

module _ (x : Crypto) {Logger : Type 0} (env : Services)
    (v : Verifier x.CertPool HttpClient Logger) where
  -- A call that stops before the cache is looked at leaves it as the other calls have made it.
  abbrev pub stop : Moment x → Error → Verified x
  stop m e = record { cache = m.later; contacted = []; result = some (err e) }

  -- `v.loadCertificateChain` with the clock read at the second moment.
  unfoldable pub load : Moment x → Key → Loaded x
  load m url =
      load_certificate_chain x env.network v.http_client v.roots m.cache m.later m.visited m.address
        url (now env.time_now v m.second)

  -- The check of the body with the leaf of a loaded chain.
  unfoldable pub check_body :
      List ℕ → List ℕ → Option (Result Error (ParsedChain x)) → Option (Result Error (Unit {0}))
  check_body body signature none = none
  check_body body signature (some (err e)) = some (err e)
  check_body body signature (some (ok chain)) =
      some (verify_body_signature x body signature chain.leaf)

  unfoldable pub verify_signature : Moment x → List ℕ → List ℕ → List ℕ → Verified x
  verify_signature m body signature cert_chain_url =
      elim (normalize_cert_chain_url env.parse_url cert_chain_url) [
        | err e ↦ stop m e
        | ok canonical ↦
            let l = load m canonical in
            record {
              cache = l.cache;
              contacted = l.contacted;
              result = check_body body signature l.result;
            }
      ]

  -- What follows the two headers.
  unfoldable pub verify_fresh : Moment x → List ℕ → List ℕ → List ℕ → Verified x
  verify_fresh m body signature cert_chain_url =
      elim (verify_timestamp env.unmarshal env.parse_time body (now env.time_now v m.first)
        (effective_tolerance v)) [
          | err e ↦ stop m e
          | ok _ ↦ verify_signature m body signature cert_chain_url
        ]

  unfoldable pub verify : Moment x → List ℕ → Header → Verified x
  verify m body hdr =
      let signature = header_get hdr signature_header in
      let cert_chain_url = header_get hdr cert_chain_url_header in
      if is_empty signature
      then stop m (errorf missing_header)
      else if is_empty cert_chain_url
      then stop m (errorf missing_header)
      else verify_fresh m body signature cert_chain_url

  -- `Warm`: the result forgets the chain.
  unfoldable pub forget : Option (Result Error (ParsedChain x)) → Option (Result Error (Unit {0}))
  forget none = none
  forget (some (err e)) = some (err e)
  forget (some (ok chain)) = some (ok tt)

  unfoldable pub warm : Moment x → List ℕ → Verified x
  warm m seed_url = elim (normalize_cert_chain_url env.parse_url seed_url) [
    | err e ↦ stop m e
    | ok canonical ↦
        let l = load m canonical in
        record { cache = l.cache; contacted = l.contacted; result = forget l.result }
  ]
