-- ===== src/Corpusgen.antt =====
-- pkg/alexaverify/internal/corpusgen/main.go: `generate`, which makes the signed test requests.
pub mod Certificates
pub mod Requests
pub mod Expected
pub mod Signed
pub mod Apart
pub mod Corpus
mod Examples
use billy.Base.{ℕ, codes, List, [], ◌∷◌, ◌++◌, Option, none, some}
use billy.Base.Int.{ℤ, pos}
use billy.Capture.{FilePath, Disk}
use billy.Crypto.{Crypto, Block}
use billy.Corpusgen.Certificates.{
  Tools, PkiError, bad_time, ◌or_else◌, ◌>>=◌, create_root, create_intermediate, create_leaf,
}
use billy.Corpusgen.Requests.{
  Fixture, System, CorpusError, not_made, not_removed, Written, ◌then◌, made, write_bytes,
  write_fixture,
}
use billy.Errors.{Result, ok, err, Foreign}

abbrev pub fixture_time : List ℕ
fixture_time = codes "2026-01-02T03:04:05Z"

abbrev pub audio : List ℕ → List ℕ → Fixture
audio name rest = record {
  directory = codes "AudioPlayer." ++ name;
  request_type = codes "AudioPlayer." ++ name;
  extra = codes ",\"token\":\"synthetic-audio-token\",\"offsetInMilliseconds\":" ++ rest;
}

abbrev pub fixtures : List Fixture
fixtures =
    record { directory = codes "LaunchRequest"; request_type = codes "LaunchRequest"; extra = [] }
    ∷ record {
      directory = codes "IntentRequest";
      request_type = codes "IntentRequest";
      extra =
          codes
            ",\"intent\":{\"name\":\"SyntheticIntent\",\"confirmationStatus\":\"NONE\",\"slots\":{}}";
    }
    ∷ audio (codes "PlaybackStarted") (codes "0")
    ∷ audio (codes "PlaybackNearlyFinished") (codes "59000")
    ∷ audio (codes "PlaybackStopped") (codes "32000")
    ∷ audio (codes "PlaybackFinished") (codes "60000")
    ∷ audio (codes "PlaybackFailed") (
        codes
          "12000,\"error\":{\"type\":\"MEDIA_ERROR_UNKNOWN\",\"message\":\"synthetic failure\"}")
    ∷ []

module _ (x : Crypto) (tools : Tools x) where
  -- What is made before anything is removed or written.
  pub record Pki : Type 0 where
    pub now : ℤ
    pub root : x.Certificate
    pub intermediate : x.Certificate
    pub leaf_der : List ℕ
    pub leaf_key : tools.PrivateKey

  unfoldable pub make_pki : Result PkiError Pki
  make_pki = do
    now ← tools.parse_time fixture_time or_else bad_time
    root ← create_root x tools now
    intermediate ← create_intermediate x tools now root.0 root.1
    leaf ← create_leaf x tools now intermediate.0 intermediate.1
    ok (record {
      now = now;
      root = root.0;
      intermediate = intermediate.0;
      leaf_der = leaf.0;
      leaf_key = leaf.1;
    })

  abbrev pub certificate_pem : List ℕ → List ℕ
  certificate_pem der = tools.pem_encode (record { type = "CERTIFICATE"; bytes = der })

  -- `writePEM`
  unfoldable pub write_pem : System → Disk → FilePath → List ℕ → Written
  write_pem os disk path der = write_bytes os disk path (certificate_pem der)

  abbrev pub chain_pem : Pki → List ℕ
  chain_pem pki = certificate_pem pki.leaf_der ++ certificate_pem (tools.raw pki.intermediate)

  module _ (os : System) where
    -- The loop over the fixtures.
    unfoldable pub write_fixtures : FilePath → Pki → List Fixture → Disk → Written
    write_fixtures out pki [] disk = (disk, ok tt)
    write_fixtures out pki (item ∷ items) disk =
        write_fixture x tools os out item pki.now pki.leaf_key disk then λ disk.
        write_fixtures out pki items disk

    unfoldable pub remove_old : Disk → FilePath → Written
    remove_old disk out =
        let removed = os.remove_all disk out in
        elim removed.1 [
          | none ↦ (removed.0, ok tt)
          | some cause ↦ (removed.0, err (not_removed cause))
        ]

    unfoldable pub publish : Disk → FilePath → Pki → Written
    publish disk out pki =
        remove_old disk out
        then (λ disk. made disk (os.mkdir_all out))
        then (λ disk. write_pem os disk (os.join out (codes "root.pem")) (tools.raw pki.root))
        then (λ disk. write_bytes os disk (os.join out (codes "chain.pem")) (chain_pem pki))
        then (λ disk. write_fixtures out pki fixtures disk)

    unfoldable pub generate : Disk → FilePath → Written
    generate disk out = elim make_pki [
      | err e ↦ (disk, err (not_made e))
      | ok pki ↦ publish disk out pki
    ]

    -- `main`: the disk after it and the exit code.
    unfoldable pub main : Disk → Disk × ℕ
    main disk =
        let done = generate disk (codes "testdata/corpus") in
        (done.0, elim done.1 [ ok _ ↦ 0 | err e ↦ 1 ])
