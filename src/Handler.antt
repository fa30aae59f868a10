-- ===== src/Handler.antt =====
-- `handleAlexa`, `captureAndRespond` and `logVerificationFailure` of alexa.go.
--
-- The state of the handler is what its requests share: the count of rejections, a uint64, the cache of
-- the verifier and the disk. One call takes a body as the connection delivers it.
pub mod Logged
pub mod Guarded
mod Examples
use billy.Base.{
  ℕ, ◌+◌, ◌%◌, ◌^◌, ◌==◌, ltb, List, [], ◌∷◌, length, String, Bool, true, false, ◌||◌,
  if◌then◌else◌, any, Option, none, some,
}
use billy.Alexa.Dispatch.{BookText, dispatch_alexa_request}
use billy.Alexa.Envelope.{Envelope, Request}
use billy.Alexa.Title.{Unicode}
use billy.Cache.{CertCache}
use billy.Capture.{FilePath, Disk, Os, save}
use billy.Chain.{ParsedChain}
use billy.Crypto.{Crypto}
use billy.Errors.{
  Result, ok, err, Foreign, Error, Sentinel, Wrapped, identity, missing_header, cert_url_invalid,
  cert_url_userinfo, cert_url_traversal, cert_fetch, untrusted_chain, cert_hostname,
  unsupported_key, bad_signature, stale_timestamp,
}
use billy.Fetch.{HttpClient}
use billy.Verifier.{Verifier}
use billy.Verify.{Services, Moment, Header, verify}

-- 1 << 20
abbrev pub max_body_bytes : ℕ
max_body_bytes = 1_048_576

-- A body as it arrives, and whether the connection breaks after that.
pub record Incoming : Type 0 where
  pub header : Header
  pub sent : List ℕ
  pub broken : Option Foreign

-- The error of `http.MaxBytesReader`.
abbrev pub over_limit : Foreign
over_limit = 5

-- `io.ReadAll` on the body limited by `http.MaxBytesReader`
unfoldable pub read_body : Incoming → Result Foreign (List ℕ)
read_body r =
    if ltb max_body_bytes (length r.sent)
    then err over_limit
    else elim r.broken [ some cause ↦ err cause | none ↦ ok r.sent ]

-- The messages of `logVerificationFailure`.
pub data Message : Type 0 where
  no_header outside_tolerance url_with_userinfo url_escapes url_invalid : Message
  not_fetched not_trusted wrong_domain key_unsupported signature_invalid unspecified : Message

-- `errors.Is(err, sentinel)`
abbrev pub is_same : Sentinel → Wrapped → Bool
is_same s (Wrapped.sentinel t) = identity s == identity t
is_same s (Wrapped.foreign n) = false

unfoldable pub wraps : Sentinel → Error → Bool
wraps s e = any (is_same s) e

-- The message, and whether the URL of the chain is logged with it.
unfoldable pub failure_message : Error → Message × Bool
failure_message e =
    if wraps missing_header e
    then (no_header, false)
    else if wraps stale_timestamp e
    then (outside_tolerance, false)
    else if wraps cert_url_userinfo e
    then (url_with_userinfo, true)
    else if wraps cert_url_traversal e
    then (url_escapes, true)
    else if wraps cert_url_invalid e
    then (url_invalid, true)
    else if wraps cert_fetch e
    then (not_fetched, true)
    else if wraps untrusted_chain e
    then (not_trusted, true)
    else if wraps cert_hostname e
    then (wrong_domain, true)
    else if wraps unsupported_key e
    then (key_unsupported, true)
    else if wraps bad_signature e
    then (signature_invalid, false)
    else (unspecified, false)

-- What the caller is told: the fixed refusal, or an envelope.
pub data Answer : Type 0 where
  refused : Answer
  answered : Envelope → Answer

-- Of what the handler itself logs about one request, the parts that depend on its outcome. What the
-- dispatch logs stands beside its envelope, and is left out here.
pub data Note : Type 0 where
  unreadable : Foreign → ℕ → Note
  unverified : Message → Bool → ℕ → Note
  not_captured : List Foreign → Note
  captured : List ℕ → ℕ → Note

pub record State (x : Crypto) : Type 0 where
  pub rejected : ℕ
  pub cache : CertCache (ParsedChain x)
  pub disk : Disk

pub record Handled (x : Crypto) : Type 0 where
  pub state : State x
  -- none: the fuel of the verification ran out.
  pub answer : Option Answer
  pub notes : List Note

-- `rejected.Add(1)`
abbrev pub add_one : ℕ → ℕ
add_one n = (n + 1) % 2 ^ 64

module _ (x : Crypto) {Logger Metadata : Type 0} (env : Services)
    (v : Verifier x.CertPool HttpClient Logger) (os : Os Metadata) (dir : FilePath) (u : Unicode)
    (unmarshal_bool : String → Result Foreign Bool)
    (unmarshal_request : List ℕ → Result Foreign Request) (book : BookText) where
  -- What a capture logs.
  unfoldable pub capture_note : List ℕ → Result (List Foreign) (List ℕ) → Note
  capture_note body (ok stem) = captured stem (length body)
  capture_note body (err causes) = not_captured causes

  unfoldable pub capture_and_respond :
      Metadata → List ℕ → ℕ → CertCache (ParsedChain x) → Disk → List ℕ → Handled x
  capture_and_respond meta host rejected cache disk body =
      let saved = save os dir disk meta body in
      record {
        state = record { rejected = rejected; cache = cache; disk = saved.0 };
        answer = some (
            answered
              (dispatch_alexa_request u unmarshal_bool host book (unmarshal_request body)).0);
        notes = capture_note body saved.1 ∷ [];
      }

  -- What follows the verification of a body that was read.
  unfoldable pub respond :
      Metadata
      → List ℕ
      → ℕ
      → Disk
      → List ℕ
      → CertCache (ParsedChain x)
      → Option (Result Error (Unit {0}))
      → Handled x
  respond meta host rejected disk body cache none = record {
    state = record { rejected = rejected; cache = cache; disk = disk };
    answer = none;
    notes = [];
  }
  respond meta host rejected disk body cache (some (err e)) =
      let message = failure_message e in
      record {
        state = record { rejected = add_one rejected; cache = cache; disk = disk };
        answer = some refused;
        notes = unverified message.0 message.1 (add_one rejected) ∷ [];
      }
  respond meta host rejected disk body cache (some (ok _)) =
      capture_and_respond meta host rejected cache disk body

  unfoldable pub handle_alexa : Metadata → List ℕ → ℕ → Disk → Moment x → Incoming → Handled x
  handle_alexa meta host rejected disk m r = elim (read_body r) [
    | err cause ↦ record {
      state = record { rejected = add_one rejected; cache = m.later; disk = disk };
      answer = some refused;
      notes = unreadable cause (add_one rejected) ∷ [];
    }
    | ok body ↦
        let verified = verify x env v m body r.header in
        respond meta host rejected disk body verified.cache verified.result
  ]
