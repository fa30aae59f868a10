-- ===== src/Corpusgen/Signed.antt =====
-- That a fixture that is written is a request whose body signature passes.
use billy.Base.{
  ℕ, bytes_eq, bytes_eq_iff, bytes_eq_refl, codes, List, [], ◌∷◌, ◌++◌, ◌≡◌, ◌≢◌, refl, ◌∙◌,
  Bool-cases, Option, some, Option-cases, inl, inr, ◌⊎◌,
}
use billy.Base.Int.{ℤ}
use billy.Capture.{FilePath, Disk, WriteOutcome, written, failed, set}
use billy.Corpusgen.Certificates.{Tools, Headers, Template, Issuer}
use billy.Corpusgen.Requests.{
  Fixture, System, Written, ◌then◌, write_bytes, cert_url, fixture_body, write_request,
  sign_request, write_fixture,
}
use billy.Crypto.{Crypto}
use billy.Errors.{ok, err, Foreign, Result-cases}
use billy.Signature.{verify_body_signature, verify_body_signature-eq-ok_iff}

-- The first of two writes that both succeed.
pub then-eq-ok :
    (w : Written) (k : Disk → Written) → (w then k).1 ≡ ok tt → (w.1 ≡ ok tt) × ((w then k) ≡ k w.0)
then-eq-ok (disk, ok u) k h = (refl, refl)
then-eq-ok (disk, err e) k h = cc

pub write_bytes-eq-ok :
    (os : System) (disk : Disk) (path : FilePath) (content : List ℕ)
    → (write_bytes os disk path content).1 ≡ ok tt
    → (write_bytes os disk path content).0 ≡ set disk path (some content)
unfolding write_bytes
write_bytes-eq-ok os disk path content h = elim (outcome_cases (os.write_file path content)) [
  | inl w ↦ rw (w, write_bytes)
  | inr (left, cause, w) ↦ cc (rw (w, write_bytes) at h)
]
  where
    outcome_cases :
        (o : WriteOutcome)
        → (o ≡ written) ⊎ ((left : Option (List ℕ)) × (cause : Foreign) × (o ≡ failed left cause))
    outcome_cases written = inl refl
    outcome_cases (failed left cause) = inr (left, cause, refl)

set_same :
    (disk : Disk) (path : FilePath) (content : Option (List ℕ))
    → set disk path content path ≡ content
set_same disk path content = rw (bytes_eq_refl path)

pub set_other :
    (disk : Disk) (path other : FilePath) (content : Option (List ℕ))
    → path ≢ other
    → set disk path content other ≡ disk other
set_other disk path other content differs = elim (Bool-cases (bytes_eq path other)) [
  | inl e ↦ absurd (differs ((bytes_eq_iff path other).0 e))
  | inr e ↦ rw e
]

module _ (x : Crypto) (tools : Tools x) (os : System) where
  -- The directory holds this body, and headers that name the URL of the chain, with a signature that
  -- passes for exactly the bytes of the body.
  pub record IsRequest (disk : Disk) (dir : FilePath) (body : List ℕ) (leaf : x.Certificate)
      : Type 0 where
    pub headers : Headers
    pub encoded : List ℕ
    pub stored_body : disk (os.join dir (codes "body.json")) ≡ some body
    pub stored_headers : disk (os.join dir (codes "headers.json")) ≡ some (encoded ++ 10 ∷ [])
    pub marshalled : tools.marshal_headers headers ≡ ok encoded
    pub url :
        headers.certificate_chain_url
        ≡ codes "https://s3.amazonaws.com/echo.api/echo-api-cert-synthetic.pem"
    pub signed : verify_body_signature x body headers.signature_256 leaf ≡ ok tt

  write_request_stores :
      (disk : Disk) (dir : FilePath) (body encoded : List ℕ)
      → os.join dir (codes "headers.json") ≢ os.join dir (codes "body.json")
      → (write_request x tools os disk dir body encoded).1 ≡ ok tt
      → ((write_request x tools os disk dir body encoded).0 (os.join dir (codes "body.json"))
          ≡ some body)
        × ((write_request x tools os disk dir body encoded).0 (os.join dir (codes "headers.json"))
            ≡ some encoded)
  unfolding write_request
  write_request_stores disk dir body encoded differs h =
      let b = os.join dir (codes "body.json") in
      let hd = os.join dir (codes "headers.json") in
      let first = write_bytes os disk b body in
      let (one, same) = then-eq-ok first (λ d. write_bytes os d hd encoded) h in
      let second : (write_bytes os first.0 hd encoded).1 ≡ ok tt = cc in
      let body_disk = write_bytes-eq-ok os disk b body one in
      let all_disk = write_bytes-eq-ok os first.0 hd encoded second in
      let ended : (write_request x tools os disk dir body encoded).0
          ≡ set first.0 hd (some encoded) =
        cc in
      (
        rw ended (
            set_other first.0 hd b (some encoded) differs
            ∙ rw body_disk (set_same disk b (some body))),
        rw ended (set_same first.0 hd (some encoded)),
      )

  -- What is documented of the tools: a signature by a key passes under its public half, what is
  -- encoded in base64 decodes, a certificate carries the public key it was created for, and the time
  -- of the corpus is formatted as it was written.
  pub record IsSound : Type 0 where
    pub signs :
        (key : tools.PrivateKey) (digest signature : List ℕ)
        → tools.sign_pkcs1v15 key digest ≡ ok signature
        → x.verify_pkcs1v15 (tools.public_key key) digest signature ≡ ok tt
    pub decodes : (bytes : List ℕ) → x.base64_decode (tools.base64_encode bytes) ≡ ok bytes
    pub issues :
        (template : Template) (issuer : Issuer x.Certificate) (public_key : x.PublicKey)
        (key : tools.PrivateKey) (der : List ℕ) (certificate : x.Certificate)
        → tools.create_certificate template issuer public_key key ≡ ok der
        → x.parse_certificate der ≡ ok certificate
        → x.rsa_public_key certificate ≡ some public_key
    pub restores :
        (now : ℤ)
        → tools.parse_time (codes "2026-01-02T03:04:05Z") ≡ ok now
        → tools.format_time now ≡ codes "2026-01-02T03:04:05Z"

  sign_request-IsRequest :
      (disk : Disk) (dir : FilePath) (body : List ℕ) (key : tools.PrivateKey) (leaf : x.Certificate)
      → IsSound
      → x.rsa_public_key leaf ≡ some (tools.public_key key)
      → os.join dir (codes "headers.json") ≢ os.join dir (codes "body.json")
      → (sign_request x tools os disk dir body key).1 ≡ ok tt
      → IsRequest (sign_request x tools os disk dir body key).0 dir body leaf
  unfolding sign_request
  sign_request-IsRequest disk dir body key leaf sound named differs h =
      elim (Result-cases (tools.sign_pkcs1v15 key (x.sha256 body))) [
        | inr (cause, s) ↦ cc (rw (s, sign_request) at h)
        | inl (signature, s) ↦
            let headers : Headers = record {
              signature_256 = tools.base64_encode signature;
              certificate_chain_url = cert_url;
            } in
            elim (Result-cases (tools.marshal_headers headers)) [
              | inr (cause, m) ↦ cc (rw (s, m, sign_request) at h)
              | inl (encoded, m) ↦
                  let (stored, stored') =
                    write_request_stores disk dir body (encoded ++ 10 ∷ []) differs
                      (rw (s, m, sign_request) at h) in
                  rw (s, m, sign_request)
                    (record {
                      headers = headers;
                      encoded = encoded;
                      stored_body = stored;
                      stored_headers = stored';
                      marshalled = m;
                      url = refl;
                      signed =
                          (verify_body_signature-eq-ok_iff x body headers.signature_256 leaf).1
                            (record {
                              key = tools.public_key key;
                              signature = signature;
                              has_key = named;
                              decodes = sound.decodes signature;
                              verifies = sound.signs key (x.sha256 body) signature s;
                            });
                    })
            ]
      ]

  pub write_fixture-IsRequest :
      (out : FilePath) (item : Fixture) (now : ℤ) (key : tools.PrivateKey) (disk : Disk)
      (leaf : x.Certificate)
      → IsSound
      → x.rsa_public_key leaf ≡ some (tools.public_key key)
      → os.join (os.join out item.directory) (codes "headers.json")
        ≢ os.join (os.join out item.directory) (codes "body.json")
      → (write_fixture x tools os out item now key disk).1 ≡ ok tt
      → IsRequest
          (write_fixture x tools os out item now key disk).0
          (os.join out item.directory)
          (fixture_body (tools.format_time now) item)
          leaf
  unfolding write_fixture
  write_fixture-IsRequest out item now key disk leaf sound named differs h =
      let dir = os.join out item.directory in
      elim (Option-cases (os.mkdir_all dir)) [
        | inr (cause, m) ↦ cc
        | inl m ↦
            rw (m, write_fixture)
              (sign_request-IsRequest disk dir (fixture_body (tools.format_time now) item) key leaf
                sound named differs (rw (m, write_fixture) at h))
      ]
