-- ===== src/Corpusgen/Requests.antt =====
-- The fixtures of pkg/alexaverify/internal/corpusgen/main.go, and `writeFixture`.
--
-- The texts that go through `%q` are printable ASCII without quotes or backslashes, so that quoting
-- only surrounds them. The disk is that of Capture.antt.
use billy.Base.{
  ℕ, ◌+◌, ◌&&◌, leb, codes, List, [], ◌∷◌, ◌++◌, map, if◌then◌else◌, Option, none, some,
}
use billy.Base.Int.{ℤ}
use billy.Capture.{FilePath, Disk, WriteOutcome, written, failed, set}
use billy.Crypto.{Crypto}
use billy.Corpusgen.Certificates.{Tools, PkiError}
use billy.Errors.{Result, ok, err, Foreign}

pub record Fixture : Type 0 where
  pub directory : List ℕ
  pub request_type : List ℕ
  pub extra : List ℕ

-- The operating system; a removal of a whole directory may leave any disk.
pub record System : Type 0 where
  pub join : FilePath → List ℕ → FilePath
  pub remove_all : Disk → FilePath → Disk × Option Foreign
  pub mkdir_all : FilePath → Option Foreign
  pub write_file : FilePath → List ℕ → WriteOutcome

pub data CorpusError : Type 0 where
  not_made : PkiError → CorpusError
  not_removed directory_not_made not_signed headers_not_encoded not_written : Foreign → CorpusError

abbrev pub Written : Type 0
Written = Disk × Result CorpusError (Unit {0})

infixl 5 ◌then◌
-- The next write, if nothing failed.
abbrev pub ◌then◌ : Written → (Disk → Written) → Written
(disk, ok _) then k = k disk
(disk, err e) then k = (disk, err e)

abbrev pub made : Disk → Option Foreign → Written
made disk none = (disk, ok tt)
made disk (some cause) = (disk, err (directory_not_made cause))

-- `os.WriteFile`
unfoldable pub write_bytes : System → Disk → FilePath → List ℕ → Written
write_bytes os disk path content = elim (os.write_file path content) [
  | written ↦ (set disk path (some content), ok tt)
  | failed left cause ↦ (set disk path left, err (not_written cause))
]

abbrev pub cert_url : List ℕ
cert_url = codes "https://s3.amazonaws.com/echo.api/echo-api-cert-synthetic.pem"

abbrev pub to_lower : List ℕ → List ℕ
to_lower = map (λ c. if leb b'A' c && leb c b'Z' then c + 32 else c)

-- `%q`
abbrev pub quoted : List ℕ → List ℕ
quoted s = 34 ∷ s ++ 34 ∷ []

-- The lines of a text, each ended by a line feed.
abbrev pub lines : List (List ℕ) → List ℕ
lines [] = []
lines (line ∷ rest) = line ++ 10 ∷ lines rest

abbrev pub preamble : List (List ℕ)
preamble =
    codes "{"
    ∷ codes "  \"version\": \"1.0\","
    ∷ codes "  \"context\": {"
    ∷ codes "    \"System\": {"
    ∷ codes "      \"application\": {\"applicationId\": \"amzn1.ask.skill.synthetic\"},"
    ∷ codes "      \"user\": {\"userId\": \"synthetic-user-id\"},"
    ∷ codes "      \"device\": {\"deviceId\": \"synthetic-device-id\"},"
    ∷ codes "      \"apiEndpoint\": \"https://api.amazonalexa.com\","
    ∷ codes "      \"apiAccessToken\": \"synthetic-api-access-token\""
    ∷ codes "    }"
    ∷ codes "  },"
    ∷ codes "  \"request\": {"
    ∷ []

unfoldable pub fixture_body : List ℕ → Fixture → List ℕ
fixture_body timestamp item =
    lines preamble
    ++ lines (
        (codes "    \"type\": " ++ quoted item.request_type ++ codes ",")
        ∷ (codes "    \"requestId\": "
            ++ quoted (codes "synthetic-" ++ to_lower item.directory)
            ++ codes ",")
        ∷ (codes "    \"timestamp\": " ++ quoted timestamp ++ codes ",")
        ∷ (codes "    \"locale\": \"en-US\"" ++ item.extra)
        ∷ codes "  }"
        ∷ codes "}"
        ∷ [])

module _ (x : Crypto) (tools : Tools x) (os : System) where
  -- The two files, body first.
  unfoldable pub write_request : Disk → FilePath → List ℕ → List ℕ → Written
  write_request disk dir body encoded_headers =
      write_bytes os disk (os.join dir (codes "body.json")) body then λ disk.
      write_bytes os disk (os.join dir (codes "headers.json")) encoded_headers

  unfoldable pub sign_request : Disk → FilePath → List ℕ → tools.PrivateKey → Written
  sign_request disk dir body key = elim (tools.sign_pkcs1v15 key (x.sha256 body)) [
    | err cause ↦ (disk, err (not_signed cause))
    | ok signature ↦
        elim (tools.marshal_headers (record {
          signature_256 = tools.base64_encode signature;
          certificate_chain_url = cert_url;
        })) [
          | err cause ↦ (disk, err (headers_not_encoded cause))
          | ok encoded ↦ write_request disk dir body (encoded ++ 10 ∷ [])
        ]
  ]

  unfoldable pub write_fixture : FilePath → Fixture → ℤ → tools.PrivateKey → Disk → Written
  write_fixture out item now key disk =
      let dir = os.join out item.directory in
      made disk (os.mkdir_all dir) then λ disk.
      sign_request disk dir (fixture_body (tools.format_time now) item) key
