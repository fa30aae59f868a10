-- ===== src/Toy.antt =====
-- Concrete stand-ins for the libraries and the surroundings, for runs and instances.
--
-- A certificate, a key and a bundle's block are one number; a signature of a body is the body itself.
use billy.Base.{
  ℕ, ◌*◌, ltb, bytes_eq, codes, List, [], ◌∷◌, false, if◌then◌else◌, ◌≡◌, arith, Option, none, some,
}
use billy.Base.Int.{pos}
use billy.Cache.{new_cert_cache}
use billy.Chain.Split.{Progresses}
use billy.Crypto.{Crypto, Block}
use billy.Errors.{Result, ok, err, Foreign}
use billy.Fetch.{HttpClient, Network}
use billy.Timestamp.{second}
use billy.Url.Normalize.{Url}
use billy.Verifier.{Verifier, initial}
use billy.Verify.{Services, Moment, Header}

abbrev decode : List ℕ → Option (Block × List ℕ)
decode [] = none
decode (c ∷ s) = some (record { type = "CERTIFICATE"; bytes = c ∷ [] }, s)

abbrev certificate_of : List ℕ → Result Foreign ℕ
certificate_of [] = err 1
certificate_of (c ∷ s) = ok c

abbrev pub toy : Crypto
toy = record {
  Certificate = ℕ;
  CertPool = List ℕ;
  PublicKey = ℕ;
  pem_decode = decode;
  parse_certificate = certificate_of;
  not_before = λ c. pos 0;
  not_after = λ c. pos (1000 * second);
  new_cert_pool = [];
  add_cert = λ pool c. c ∷ pool;
  system_cert_pool = ok [];
  verify = λ c roots intermediates now. if ltb c 100 then ok tt else err 2;
  verify_hostname = λ c domain. ok tt;
  rsa_public_key = λ c. some c;
  base64_decode = λ s. ok s;
  sha256 = λ s. s;
  verify_pkcs1v15 = λ key digest signature. if bytes_eq digest signature then ok tt else err 3;
}

pub toy-Progresses : Progresses toy
toy-Progresses [] block rest h = cc
toy-Progresses (c ∷ s) block rest h = let same : s ≡ rest = cc in rw (← same) (omega arith)

abbrev pub chain_url : Url
chain_url = record {
  scheme = codes "https";
  user = false;
  host = codes "s3.amazonaws.com";
  path = codes "/echo.api/c";
  raw_query = [];
}

abbrev pub network : Network
network = record {
  new_request = λ url. ok tt;
  round_trip = λ transport attempt url.
      ok (record { status = 200; location = []; body = codes "AB"; broken = none });
  done = λ attempt. false;
}

-- Every body carries the time 100 s, and the clock stands at 120 s.
abbrev pub services : Services
services = record {
  parse_url = λ raw. ok chain_url;
  unmarshal = λ body. ok (record { type = "IntentRequest"; request_id = "1"; timestamp = "100" });
  parse_time = λ text. ok (pos (100 * second));
  time_now = λ moment. pos (120 * second);
  network = network;
}

abbrev pub verifier : Verifier (List ℕ) HttpClient (Unit {0})
verifier = initial

abbrev pub moment : Moment toy
moment = record {
  cache = new_cert_cache;
  later = new_cert_cache;
  visited = [];
  address = 0;
  first = 0;
  second = 1;
}

abbrev pub body : List ℕ
body = codes "b"

abbrev pub header : Header
header = (codes "Signature-256", body ∷ []) ∷ (codes "Signaturecertchainurl", codes "u" ∷ []) ∷ []
