-- ===== src/Corpusgen/Examples.antt =====
-- A run of the generator, and an instance of its theorem.
use billy.Base.{
  some, ℕ, ◌++◌, bytes_eq, bytes_eq_iff, bytes_eq_refl, codes, List, [], ◌∷◌, all, All, Bool, true,
  not, ◌&&◌, and-eq-true, ◌≡◌, ◌≢◌, refl, none,
}
use billy.Base.Int.{pos}
use billy.Capture.{FilePath, Disk, written}
use billy.Corpusgen.{
  fixtures, Pki, make_pki, write_pem, write_fixtures, remove_old, publish, generate,
}
use billy.Corpusgen.Certificates.{Tools, create_root, create_intermediate, create_leaf}
use billy.Corpusgen.Apart.{AreApart, AllApart}
use billy.Corpusgen.Corpus.{HasCorpus, generate-HasCorpus}
use billy.Corpusgen.Requests.{
  Fixture, System, write_bytes, fixture_body, write_request, sign_request, write_fixture,
}
use billy.Corpusgen.Signed.{IsSound}
use billy.Errors.{Result, ok, Foreign}
use billy.Toy.{toy}

program : Unit {0}
unfolding bytes_eq write_bytes fixture_body write_request sign_request write_fixture create_root
    create_intermediate create_leaf make_pki write_pem write_fixtures remove_old publish generate
program = tt

-- A key is a number, its certificate holds it, and a signature is the digest.
abbrev tools : Tools toy
tools = record {
  PrivateKey = ℕ;
  parse_time = λ text. ok (pos 0);
  format_time = λ now. codes "2026-01-02T03:04:05Z";
  generate_key = λ n. ok n;
  public_key = λ key. key;
  create_certificate = λ template issuer public_key key. ok (public_key ∷ []);
  raw = λ certificate. certificate ∷ [];
  sign_pkcs1v15 = λ key digest. ok digest;
  base64_encode = λ bytes. bytes;
  pem_encode = λ block. block.bytes;
  marshal_headers = λ headers. ok headers.signature_256;
}

abbrev empty : Disk
empty = λ path. none

abbrev os : System
os = record {
  join = λ dir name. dir ++ b'/' ∷ name;
  remove_all = λ disk out. (empty, none);
  mkdir_all = λ dir. none;
  write_file = λ path content. written;
}

abbrev out : FilePath
out = codes "o"

tools-IsSound : IsSound toy tools os
tools-IsSound = record {
  signs = λ key digest signature h.
      let same : digest ≡ signature = cc in rw (← same) (rw (bytes_eq_refl digest));
  decodes = λ bytes. refl;
  restores = λ now h. refl;
  issues =
      λ template issuer public_key key der certificate c p. issued public_key der certificate c p;
}
  where
    issued :
        (public_key : ℕ) (der : List ℕ) (certificate : ℕ)
        → ◌≡◌ {A = Result Foreign (List ℕ)} (ok (public_key ∷ [])) (ok der)
        → toy.parse_certificate der ≡ ok certificate
        → toy.rsa_public_key certificate ≡ some public_key
    issued public_key [] certificate c p = cc
    issued public_key (byte ∷ der) certificate c p = cc

abbrev file : Fixture → List ℕ → FilePath
file item name = os.join (os.join out item.directory) name

abbrev differ : FilePath → FilePath → Bool
differ p q = not (bytes_eq p q)

differ-ne : (p q : FilePath) → differ p q ≡ true → p ≢ q
differ-ne p q d e = let same : bytes_eq p q ≡ true = (bytes_eq_iff p q).1 e in cc

abbrev body : List ℕ
body = codes "body.json"

abbrev headers : List ℕ
headers = codes "headers.json"

abbrev apart : Fixture → Fixture → Bool
apart item other =
    differ (file item body) (file other body)
    && (differ (file item headers) (file other headers)
        && (differ (file item body) (file other headers)
            && differ (file item headers) (file other body)))

apart-AreApart :
    (item other : Fixture) → apart item other ≡ true → AreApart toy tools os out item other
apart-AreApart item other h =
    let (b, h1) = and-eq-true (differ (file item body) (file other body)) _ h in
    let (d, h2) = and-eq-true (differ (file item headers) (file other headers)) _ h1 in
    let (c, k) = and-eq-true (differ (file item body) (file other headers)) _ h2 in
    record {
      bodies = differ-ne _ _ b;
      headers = differ-ne _ _ d;
      crossed = differ-ne _ _ c;
      back = differ-ne _ _ k;
    }

all-AreApart :
    (item : Fixture) (items : List Fixture)
    → all (apart item) items ≡ true
    → All (AreApart toy tools os out item) items
all-AreApart item [] h = tt
all-AreApart item (other ∷ items) h =
    let (a, rest) = and-eq-true (apart item other) _ h in
    (apart-AreApart item other a, all-AreApart item items rest)

abbrev all_apart : List Fixture → Bool
all_apart [] = true
all_apart (item ∷ items) =
    differ (file item headers) (file item body) && (all (apart item) items && all_apart items)

all_apart-AllApart :
    (items : List Fixture) → all_apart items ≡ true → AllApart toy tools os out items
all_apart-AllApart [] h = tt
all_apart-AllApart (item ∷ items) h =
    let (own, h1) = and-eq-true (differ (file item headers) (file item body)) _ h in
    let (others, rest) = and-eq-true (all (apart item) items) _ h1 in
    (differ-ne _ _ own, all-AreApart item items others, all_apart-AllApart items rest)

apart_runs : all_apart fixtures ≡ true
unfolding program
apart_runs = refl

abbrev pki : Pki toy tools
pki = record { now = pos 0; root = 0; intermediate = 1; leaf_der = 2 ∷ []; leaf_key = 2 }

pki_runs : make_pki toy tools ≡ ok pki
unfolding program
pki_runs = refl

generated_runs : (generate toy tools os empty out).1 ≡ ok tt
unfolding program
generated_runs = refl

generate-HasCorpus_example : HasCorpus toy tools os out (generate toy tools os empty out).0 2
generate-HasCorpus_example =
    generate-HasCorpus toy tools os out pki 2 empty tools-IsSound
      (all_apart-AllApart fixtures apart_runs) pki_runs refl generated_runs
