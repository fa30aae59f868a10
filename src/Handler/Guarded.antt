-- ===== src/Handler/Guarded.antt =====
-- What stands before an answer, and what a refusal leaves behind.
use billy.Base.{
  ℕ, ◌≤◌, List, [], ◌∷◌, length, ltb, String, Bool, ◌≡◌, refl, arith, Option, none, some,
  Bool-cases, Option-cases, inl, inr,
}
use billy.Alexa.Dispatch.{BookText, dispatch_alexa_request}
use billy.Alexa.Envelope.{Envelope, Request}
use billy.Alexa.Title.{Unicode}
use billy.Cache.{CertCache}
use billy.Capture.{FilePath, Disk, Os}
use billy.Chain.{ParsedChain}
use billy.Chain.Split.{Progresses}
use billy.Crypto.{Crypto}
use billy.Errors.{Result, ok, err, Foreign, Error, Sentinel, Result-cases}
use billy.Fetch.{HttpClient}
use billy.Handler.{
  Incoming, refused, answered, unverified, Handled, max_body_bytes, read_body, add_one,
  capture_and_respond, respond, handle_alexa,
}
use billy.Handler.Logged.{message_of, failure_message-WrapsOne}
use billy.Load.Trust.{AllTrusted}
use billy.Verifier.{Verifier}
use billy.Verify.{Services, Moment, verify}
use billy.Verify.Outcome.{IsDecided, verify-IsDecided}
use billy.Verify.Sound.{IsAuthentic, verify-IsAuthentic}

-- A body is read only as a whole, and only up to the limit.
read_whole :
    (r : Incoming) (body : List ℕ)
    → read_body r ≡ ok body
    → (body ≡ r.sent) × (r.broken ≡ none) × (length r.sent ≤ max_body_bytes)
unfolding read_body
read_whole r body h = elim (Bool-cases (ltb max_body_bytes (length r.sent))) [
  | inl l ↦ cc (rw (l, read_body) at h)
  | inr l ↦ elim (Option-cases r.broken) [
    | inr (cause, b) ↦ cc (rw (l, b, read_body) at h)
    | inl b ↦ let same : r.sent ≡ body = cc (rw (l, b, read_body) at h) in (cc, b, ground arith)
  ]
]

module _ (x : Crypto) {Logger Metadata : Type 0} (env : Services)
    (v : Verifier x.CertPool HttpClient Logger) (os : Os Metadata) (dir : FilePath) (u : Unicode)
    (unmarshal_bool : String → Result Foreign Bool)
    (unmarshal_request : List ℕ → Result Foreign Request) (book : BookText) where
  abbrev handle : Metadata → List ℕ → ℕ → Disk → Moment x → Incoming → Handled x
  handle = handle_alexa x env v os dir u unmarshal_bool unmarshal_request book

  respond_answered :
      (meta : Metadata) (host : List ℕ) (rejected : ℕ) (disk : Disk) (body : List ℕ)
      (cache : CertCache (ParsedChain x)) (result : Option (Result Error (Unit {0}))) (e : Envelope)
      → (respond x env v os dir u unmarshal_bool unmarshal_request book meta host rejected disk body
          cache result).answer
        ≡ some (answered e)
      → (result ≡ some (ok tt))
        × (e ≡ (dispatch_alexa_request u unmarshal_bool host book (unmarshal_request body)).0)
  unfolding respond capture_and_respond
  respond_answered meta host rejected disk body cache none e h = cc
  respond_answered meta host rejected disk body cache (some (err cause)) e h = cc
  respond_answered meta host rejected disk body cache (some (ok _)) e h = (refl, cc)

  -- If a request is answered with an envelope, then its body was read whole and is at most 1 MiB long,
  -- the verifier accepted exactly these bytes, and the envelope is what the dispatch makes of them,
  -- whether or not the capture worked.
  pub handle_alexa_answers :
      (meta : Metadata) (host : List ℕ) (rejected : ℕ) (disk : Disk) (m : Moment x) (r : Incoming)
      (e : Envelope)
      → (handle meta host rejected disk m r).answer ≡ some (answered e)
      → (r.broken ≡ none)
        × (length r.sent ≤ max_body_bytes)
        × ((verify x env v m r.sent r.header).result ≡ some (ok tt))
        × (e ≡ (dispatch_alexa_request u unmarshal_bool host book (unmarshal_request r.sent)).0)
  unfolding handle_alexa
  handle_alexa_answers meta host rejected disk m r e h = elim (Result-cases (read_body r)) [
    | inr (cause, b) ↦ cc (rw (b, handle_alexa) at h)
    | inl (body, b) ↦
        let (same, unbroken, short) = read_whole r body b in
        let (accepted, made) =
          respond_answered meta host rejected disk r.sent (verify x env v m r.sent r.header).cache
            (verify x env v m r.sent r.header).result e (rw (b, handle_alexa, same) at h) in
        (unbroken, short, accepted, made)
  ]

  -- An envelope is answered only to an authentic request: fresh, and signed over the bytes that were
  -- read, by a certificate of a validated chain for the Alexa API domain, if the cache holds only
  -- trusted chains whenever the call looks at it.
  pub handle_alexa-IsAuthentic :
      (meta : Metadata) (host : List ℕ) (rejected : ℕ) (disk : Disk) (m : Moment x) (r : Incoming)
      (e : Envelope)
      → AllTrusted x v.roots m.cache
      → AllTrusted x v.roots m.later
      → (handle meta host rejected disk m r).answer ≡ some (answered e)
      → IsAuthentic x env v m r.sent r.header
  handle_alexa-IsAuthentic meta host rejected disk m r e before after h =
      verify-IsAuthentic x env v m r.sent r.header before after
        (handle_alexa_answers meta host rejected disk m r e h).2

  respond-refused :
      (meta : Metadata) (host : List ℕ) (rejected : ℕ) (disk : Disk) (body : List ℕ)
      (cache : CertCache (ParsedChain x)) (result : Option (Result Error (Unit {0})))
      → (respond x env v os dir u unmarshal_bool unmarshal_request book meta host rejected disk body
          cache result).answer
        ≡ some refused
      → ((respond x env v os dir u unmarshal_bool unmarshal_request book meta host rejected disk
            body cache result).state.disk
          ≡ disk)
        × ((respond x env v os dir u unmarshal_bool unmarshal_request book meta host rejected disk
              body cache result).state.rejected
            ≡ add_one rejected)
  unfolding respond capture_and_respond
  respond-refused meta host rejected disk body cache none h = cc
  respond-refused meta host rejected disk body cache (some (err cause)) h = (refl, refl)
  respond-refused meta host rejected disk body cache (some (ok _)) h = cc

  -- A refused request writes nothing to the disk and is counted once.
  pub handle_alexa_refuses :
      (meta : Metadata) (host : List ℕ) (rejected : ℕ) (disk : Disk) (m : Moment x) (r : Incoming)
      → (handle meta host rejected disk m r).answer ≡ some refused
      → ((handle meta host rejected disk m r).state.disk ≡ disk)
        × ((handle meta host rejected disk m r).state.rejected ≡ add_one rejected)
  unfolding handle_alexa
  handle_alexa_refuses meta host rejected disk m r h = elim (Result-cases (read_body r)) [
    | inr (cause, b) ↦ rw (b, handle_alexa) (refl, refl)
    | inl (body, b) ↦
        rw (b, handle_alexa)
          (respond-refused meta host rejected disk body (verify x env v m body r.header).cache
            (verify x env v m body r.header).result (rw (b, handle_alexa) at h))
  ]

  respond_decided :
      (meta : Metadata) (host : List ℕ) (rejected : ℕ) (disk : Disk) (body : List ℕ)
      (cache : CertCache (ParsedChain x)) (result : Option (Result Error (Unit {0})))
      → IsDecided x env v result
      → (respond x env v os dir u unmarshal_bool unmarshal_request book meta host rejected disk body
          cache result).answer
        ≡ some refused
      → (s : Sentinel) × ((respond x env v os dir u unmarshal_bool unmarshal_request book meta host
            rejected disk body cache result).notes
          ≡ unverified (message_of s).0 (message_of s).1 (add_one rejected) ∷ [])
  unfolding respond capture_and_respond
  respond_decided meta host rejected disk body cache _ IsDecided.accepted h = cc
  respond_decided meta host rejected disk body cache _ (IsDecided.rejected s e one) h =
      (s, rw (failure_message-WrapsOne s e one))

  -- A request that was read whole and refused is logged once, with the message of one of the
  -- sentinels and never with the general one, if `pem.Decode` takes input whenever it finds a block.
  pub handle_alexa_logs :
      (meta : Metadata) (host : List ℕ) (rejected : ℕ) (disk : Disk) (m : Moment x) (r : Incoming)
      (body : List ℕ)
      → Progresses x
      → read_body r ≡ ok body
      → (handle meta host rejected disk m r).answer ≡ some refused
      → (s : Sentinel) × ((handle meta host rejected disk m r).notes
          ≡ unverified (message_of s).0 (message_of s).1 (add_one rejected) ∷ [])
  unfolding handle_alexa
  handle_alexa_logs meta host rejected disk m r body progresses b h =
      rw (b, handle_alexa)
        (respond_decided meta host rejected disk body (verify x env v m body r.header).cache
          (verify x env v m body r.header).result
          (verify-IsDecided x env v m body r.header progresses) (rw (b, handle_alexa) at h))
