-- ===== src/Corpusgen/Apart.antt =====
-- The paths of the fixtures, and that what is written for one leaves the others alone.
use billy.Base.{ℕ, codes, List, [], ◌∷◌, ◌++◌, ◌≡◌, ◌≢◌, ◌∙◌, All, some, Option-cases, inl, inr}
use billy.Base.Int.{ℤ}
use billy.Capture.{FilePath, Disk, set}
use billy.Corpusgen.Certificates.{Tools}
use billy.Corpusgen.Requests.{
  Fixture, System, write_bytes, cert_url, fixture_body, write_request, sign_request, write_fixture,
}
use billy.Corpusgen.Signed.{then-eq-ok, write_bytes-eq-ok, set_other}
use billy.Crypto.{Crypto}
use billy.Errors.{ok, Result-cases}

module _ (x : Crypto) (tools : Tools x) (os : System) (out : FilePath) where
  abbrev pub body_of : Fixture → FilePath
  body_of item = os.join (os.join out item.directory) (codes "body.json")

  abbrev pub headers_of : Fixture → FilePath
  headers_of item = os.join (os.join out item.directory) (codes "headers.json")

  -- No file of one fixture is a file of the other.
  pub record AreApart (item other : Fixture) : Type 0 where
    pub bodies : body_of item ≢ body_of other
    pub headers : headers_of item ≢ headers_of other
    pub crossed : body_of item ≢ headers_of other
    pub back : headers_of item ≢ body_of other

  -- The files of all fixtures have different paths.
  abbrev pub AllApart : List Fixture → Type 0
  AllApart [] = Unit
  AllApart (item ∷ items) =
      (headers_of item ≢ body_of item) × All (AreApart item) items × AllApart items

  write_request_keeps :
      (disk : Disk) (dir path : FilePath) (body encoded : List ℕ)
      → os.join dir (codes "body.json") ≢ path
      → os.join dir (codes "headers.json") ≢ path
      → (write_request x tools os disk dir body encoded).1 ≡ ok tt
      → (write_request x tools os disk dir body encoded).0 path ≡ disk path
  unfolding write_request
  write_request_keeps disk dir path body encoded b h done =
      let body_path = os.join dir (codes "body.json") in
      let headers_path = os.join dir (codes "headers.json") in
      let first = write_bytes os disk body_path body in
      let (one, same) = then-eq-ok first (λ d. write_bytes os d headers_path encoded) done in
      let second : (write_bytes os first.0 headers_path encoded).1 ≡ ok tt = cc in
      let ended : (write_request x tools os disk dir body encoded).0
          ≡ set first.0 headers_path (some encoded) =
        cc (write_bytes-eq-ok os first.0 headers_path encoded second) in
      rw ended (
        set_other first.0 headers_path path (some encoded) h
        ∙ rw (write_bytes-eq-ok os disk body_path body one)
            (set_other disk body_path path (some body) b))

  pub write_fixture_keeps :
      (item : Fixture) (now : ℤ) (key : tools.PrivateKey) (disk : Disk) (path : FilePath)
      → body_of item ≢ path
      → headers_of item ≢ path
      → (write_fixture x tools os out item now key disk).1 ≡ ok tt
      → (write_fixture x tools os out item now key disk).0 path ≡ disk path
  unfolding write_fixture sign_request
  write_fixture_keeps item now key disk path b h done =
      let dir = os.join out item.directory in
      let body = fixture_body (tools.format_time now) item in
      elim (Option-cases (os.mkdir_all dir)) [
        | inr (cause, m) ↦ cc
        | inl m ↦ elim (Result-cases (tools.sign_pkcs1v15 key (x.sha256 body))) [
          | inr (cause, s) ↦ cc (rw (m, write_fixture, s, sign_request) at done)
          | inl (signature, s) ↦
              elim (Result-cases (
                tools.marshal_headers (record {
                  signature_256 = tools.base64_encode signature;
                  certificate_chain_url = cert_url;
                }))) [
                  | inr (cause, e) ↦ cc (rw (m, write_fixture, s, sign_request, e) at done)
                  | inl (encoded, e) ↦
                      rw (m, write_fixture, s, sign_request, e)
                        (write_request_keeps disk dir path body (encoded ++ 10 ∷ []) b h
                          (rw (m, write_fixture, s, sign_request, e) at done))
                ]
        ]
      ]
