-- ===== src/Corpusgen/Corpus.antt =====
-- That a corpus that is generated holds every fixture, signed by the key of its leaf.
use mathlib.Core.Path.{subst}
use billy.Corpusgen.Expected.{Expected, expected, expected_body, body_text, fixture_body-body_text}
use billy.Corpusgen.Requests.{to_lower, fixture_body}
use billy.Base.{◌++◌, ℕ, codes, List, [], ◌∷◌, ◌≡◌, refl, sym, ap, ◌∙◌, All, some, inl, inr}
use billy.Base.Int.{ℤ}
use billy.Capture.{FilePath, Disk}
use billy.Corpusgen.{
  fixtures, fixture_time, Pki, make_pki, chain_pem, write_pem, write_fixtures, remove_old, publish,
  generate,
}
use billy.Corpusgen.Certificates.{
  Tools, issued_by, leaf_template, PkiError, create_root, create_intermediate, create_leaf,
}
use billy.Corpusgen.Requests.{Fixture, System, Written, ◌then◌, made, write_bytes, write_fixture}
use billy.Corpusgen.Apart.{AreApart, AllApart, body_of, headers_of, write_fixture_keeps}
use billy.Corpusgen.Signed.{then-eq-ok, IsRequest, IsSound, write_fixture-IsRequest}
use billy.Crypto.{Crypto}
use billy.Errors.{Result, ok, Result-cases}

module _ (x : Crypto) (tools : Tools x) (os : System) (out : FilePath) where
  IsRequest-of_same :
      (item : Fixture) (body : List ℕ) (leaf : x.Certificate) (disk disk' : Disk)
      → disk' (body_of x tools os out item) ≡ disk (body_of x tools os out item)
      → disk' (headers_of x tools os out item) ≡ disk (headers_of x tools os out item)
      → IsRequest x tools os disk (os.join out item.directory) body leaf
      → IsRequest x tools os disk' (os.join out item.directory) body leaf
  IsRequest-of_same item body leaf disk disk' b h r = record {
    headers = r.headers;
    encoded = r.encoded;
    stored_body = b ∙ r.stored_body;
    stored_headers = h ∙ r.stored_headers;
    marshalled = r.marshalled;
    url = r.url;
    signed = r.signed;
  }

  -- Every fixture is a request with the text that goes with it.
  abbrev AllTexts : (Fixture → List ℕ) → Disk → x.Certificate → List Fixture → Type 0
  AllTexts text disk leaf =
      All (λ (item : Fixture).
        IsRequest x tools os disk (os.join out item.directory) (text item) leaf)

  -- The corpus that is wanted stands on the disk.
  abbrev pub HasCorpus : Disk → x.Certificate → Type 0
  HasCorpus disk leaf =
      All (λ (e : Expected). IsRequest x tools os disk (os.join out e.name) (expected_body e) leaf)
        expected

  abbrev wanted : Fixture → List ℕ
  wanted item =
      body_text item.request_type (codes "synthetic-" ++ to_lower item.directory) item.extra

  AllTexts-wanted :
      (disk : Disk) (leaf : x.Certificate) (items : List Fixture)
      → AllTexts (fixture_body (codes "2026-01-02T03:04:05Z")) disk leaf items
      → AllTexts wanted disk leaf items
  AllTexts-wanted disk leaf [] all = tt
  AllTexts-wanted disk leaf (item ∷ items) (r, rest) = (
    subst (λ text. IsRequest x tools os disk (os.join out item.directory) text leaf)
        (fixture_body-body_text item) r,
    AllTexts-wanted disk leaf items rest,
  )

  HasCorpus-of_texts :
      (disk : Disk) (leaf : x.Certificate)
      → AllTexts wanted disk leaf fixtures
      → HasCorpus disk leaf
  HasCorpus-of_texts disk leaf all = all

  module _ (pki : Pki x tools) where
    -- The fixtures after one that is apart from them leave its files alone.
    write_fixtures_keeps :
        (item : Fixture) (items : List Fixture) (disk : Disk)
        → All (AreApart x tools os out item) items
        → (write_fixtures x tools os out pki items disk).1 ≡ ok tt
        → ((write_fixtures x tools os out pki items disk).0 (body_of x tools os out item)
            ≡ disk (body_of x tools os out item))
          × ((write_fixtures x tools os out pki items disk).0 (headers_of x tools os out item)
              ≡ disk (headers_of x tools os out item))
    unfolding write_fixtures
    write_fixtures_keeps item [] disk apart done = (refl, refl)
    write_fixtures_keeps item (other ∷ items) disk (a, apart) done =
        let first = write_fixture x tools os out other pki.now pki.leaf_key disk in
        let (one, same) = then-eq-ok first (λ d. write_fixtures x tools os out pki items d) done in
        let rest : (write_fixtures x tools os out pki items first.0).1 ≡ ok tt = cc in
        let (bodies, headers) = write_fixtures_keeps item items first.0 apart rest in
        let kept = write_fixture_keeps x tools os out other pki.now pki.leaf_key disk in
        (
          ap (λ (w : Written). w.0 (body_of x tools os out item)) same
              ∙ bodies
              ∙ kept (body_of x tools os out item) (λ e. a.bodies (sym e)) (λ e. a.crossed (sym e))
                  one,
          ap (λ (w : Written). w.0 (headers_of x tools os out item)) same
              ∙ headers
              ∙ kept (headers_of x tools os out item) (λ e. a.back (sym e)) (λ e. a.headers (sym e))
                  one,
        )

    abbrev AllRequests : Disk → x.Certificate → List Fixture → Type 0
    AllRequests = AllTexts (fixture_body (tools.format_time pki.now))

    write_fixtures-AllRequests :
        (leaf : x.Certificate) (items : List Fixture) (disk : Disk)
        → IsSound x tools os
        → x.rsa_public_key leaf ≡ some (tools.public_key pki.leaf_key)
        → AllApart x tools os out items
        → (write_fixtures x tools os out pki items disk).1 ≡ ok tt
        → AllRequests (write_fixtures x tools os out pki items disk).0 leaf items
    unfolding write_fixtures
    write_fixtures-AllRequests leaf [] disk sound named apart done = tt
    write_fixtures-AllRequests leaf (item ∷ items) disk sound named (own, others, apart) done =
        let first = write_fixture x tools os out item pki.now pki.leaf_key disk in
        let (one, same) = then-eq-ok first (λ d. write_fixtures x tools os out pki items d) done in
        let rest : (write_fixtures x tools os out pki items first.0).1 ≡ ok tt = cc in
        let (bodies, headers) = write_fixtures_keeps item items first.0 others rest in
        let r =
          write_fixture-IsRequest x tools os out item pki.now pki.leaf_key disk leaf sound named own
            one in
        let ended : (write_fixtures x tools os out pki (item ∷ items) disk).0
            ≡ (write_fixtures x tools os out pki items first.0).0 =
          ap (λ (w : Written). w.0) same in
        subst (λ d. AllRequests d leaf (item ∷ items)) (sym ended)
          (
            IsRequest-of_same item (fixture_body (tools.format_time pki.now) item) leaf first.0 _
                bodies headers r,
            write_fixtures-AllRequests leaf items first.0 sound named apart rest,
          )

    publish-AllRequests :
        (leaf : x.Certificate) (disk : Disk)
        → IsSound x tools os
        → x.rsa_public_key leaf ≡ some (tools.public_key pki.leaf_key)
        → AllApart x tools os out fixtures
        → (publish x tools os disk out pki).1 ≡ ok tt
        → AllRequests (publish x tools os disk out pki).0 leaf fixtures
    unfolding publish
    publish-AllRequests leaf disk sound named apart done =
        let before =
          remove_old x tools os disk out
          then (λ d. made d (os.mkdir_all out))
          then (λ d. write_pem x tools os d (os.join out (codes "root.pem")) (tools.raw pki.root))
          then (λ d. write_bytes os d (os.join out (codes "chain.pem")) (chain_pem x tools pki)) in
        let (one, same) =
          then-eq-ok before (λ d. write_fixtures x tools os out pki fixtures d) done in
        let rest : (write_fixtures x tools os out pki fixtures before.0).1 ≡ ok tt = cc in
        subst (λ (w : Written). AllRequests w.0 leaf fixtures) (sym same)
          (write_fixtures-AllRequests leaf fixtures before.0 sound named apart rest)

  abbrev pki_of : ℤ → x.Certificate → x.Certificate → List ℕ × tools.PrivateKey → Pki x tools
  pki_of now root intermediate leaf = record {
    now = now;
    root = root;
    intermediate = intermediate;
    leaf_der = leaf.0;
    leaf_key = leaf.1;
  }

  -- The leaf is issued for the key that comes with it.
  create_leaf_names :
      (now : ℤ) (intermediate : x.Certificate) (key : tools.PrivateKey)
      (pair : List ℕ × tools.PrivateKey) (leaf : x.Certificate)
      → IsSound x tools os
      → create_leaf x tools now intermediate key ≡ ok pair
      → x.parse_certificate pair.0 ≡ ok leaf
      → x.rsa_public_key leaf ≡ some (tools.public_key pair.1)
  unfolding create_leaf
  create_leaf_names now intermediate key pair leaf sound h parsed =
      elim (Result-cases (tools.generate_key 2)) [
        | inr (cause, g) ↦ cc (rw (g, create_leaf) at h)
        | inl (own, g) ↦
            elim (Result-cases (
              tools.create_certificate (leaf_template now) (issued_by intermediate)
                (tools.public_key own) key)) [
                  | inr (cause, c) ↦ cc (rw (g, c, create_leaf) at h)
                  | inl (der, c) ↦
                      let same : ◌≡◌ {A = Result PkiError (List ℕ × tools.PrivateKey)}
                          (ok (der, own)) (ok pair) =
                        rw (g, c, create_leaf) at h in
                      let at_der : der ≡ pair.0 = cc in
                      let at_key : own ≡ pair.1 = cc in
                      subst (λ k. x.rsa_public_key leaf ≡ some (tools.public_key k)) at_key
                        (sound.issues _ _ _ _ der leaf c (ap x.parse_certificate at_der ∙ parsed))
                ]
      ]

  make_pki_names :
      (pki : Pki x tools) (leaf : x.Certificate)
      → IsSound x tools os
      → make_pki x tools ≡ ok pki
      → x.parse_certificate pki.leaf_der ≡ ok leaf
      → (x.rsa_public_key leaf ≡ some (tools.public_key pki.leaf_key))
        × (tools.parse_time fixture_time ≡ ok pki.now)
  unfolding make_pki
  make_pki_names pki leaf sound h parsed = elim (Result-cases (tools.parse_time fixture_time)) [
    | inr (cause, t) ↦ cc (rw (t, make_pki) at h)
    | inl (now, t) ↦ elim (Result-cases (create_root x tools now)) [
      | inr (e, r) ↦ cc (rw (t, r, make_pki) at h)
      | inl (root, r) ↦ elim (Result-cases (create_intermediate x tools now root.0 root.1)) [
        | inr (e, i) ↦ cc (rw (t, r, i, make_pki) at h)
        | inl (middle, i) ↦ elim (Result-cases (create_leaf x tools now middle.0 middle.1)) [
          | inr (e, l) ↦ cc (rw (t, r, i, l, make_pki) at h)
          | inl (pair, l) ↦
              let same : pki_of now root.0 middle.0 pair ≡ pki =
                cc (rw (t, r, i, l, make_pki) at h) in
              subst
                (λ (p : Pki x tools).
                  x.parse_certificate p.leaf_der ≡ ok leaf
                  → (x.rsa_public_key leaf ≡ some (tools.public_key p.leaf_key))
                    × (tools.parse_time fixture_time ≡ ok p.now))
                same (λ q. (create_leaf_names now middle.0 middle.1 pair leaf sound l q, t)) parsed
        ]
      ]
    ]
  ]

  -- If `generate` succeeds, the whole corpus stands on the disk at the end: for each of the seven
  -- requests, in the directory of its name, the body byte for byte, beside headers that name the
  -- chain's URL and hold a signature that `verifyBodySignature` accepts for exactly those bytes, with
  -- the leaf certificate that was made. This rests on what is documented of the tools, and on
  -- different paths for the files of the fixtures.
  pub generate-HasCorpus :
      (pki : Pki x tools) (leaf : x.Certificate) (disk : Disk)
      → IsSound x tools os
      → AllApart x tools os out fixtures
      → make_pki x tools ≡ ok pki
      → x.parse_certificate pki.leaf_der ≡ ok leaf
      → (generate x tools os disk out).1 ≡ ok tt
      → HasCorpus (generate x tools os disk out).0 leaf
  unfolding generate
  generate-HasCorpus pki leaf disk sound apart m parsed done =
      let (named, read) = make_pki_names pki leaf sound m parsed in
      let written =
        publish-AllRequests pki leaf disk sound named apart (rw (m, generate) at done) in
      rw (m, generate)
        (HasCorpus-of_texts _ leaf (
          AllTexts-wanted _ leaf fixtures (
            subst
              (λ ts. AllTexts (fixture_body ts) (publish x tools os disk out pki).0 leaf fixtures)
              (sound.restores pki.now read) written)))
