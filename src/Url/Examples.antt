-- ===== src/Url/Examples.antt =====
-- Runs of the URL code on concrete inputs, and instances of its theorems.
use billy.Base.{codes, ◌≡◌, refl, bytes_eq, has_prefix, true, false, some}
use billy.Base.{Bool, ltb, ◌&&◌, and-eq-true, if◌then◌else◌, ◌∷◌, List, ℕ, ◌↔◌, refl, arith, []}
use billy.Errors.{
  Sentinel, Result, Foreign, ok, err, errorf, cert_url_traversal, cert_url_invalid,
  cert_url_userinfo,
}
use billy.Url.Clean.{clean, clean_relative, clean_rooted, resolve_all, split_slash}
use billy.Url.Escape.{escape, hex_digit, unescape, path_should_escape, host_should_escape}
use billy.Url.Host.{equal_fold, split_host_port}
use billy.Url.Normalize.{
  Url, normalize_parsed, normalize_path, url_string, canonical_url, has_dot_dot,
  validate_cert_chain_host_port,
}
use billy.Url.Accept.{
  Addressed, Refused, canonical_form, normalize_parsed-eq-ok_iff, normalize_parsed-eq-err,
}
use billy.Url.Bytes.{AreBytes}
use billy.Url.Key.{normalize_cert_chain_url_idempotent}
use billy.Url.Cleaned.{segments}
use billy.Url.Under.{IsUnder}
use billy.Url.Normalize.{normalize_cert_chain_url, hostname, port, cleaned_path, cert_path_error}

program : Unit {0}
unfolding clean clean_relative clean_rooted resolve_all split_slash escape hex_digit unescape
    path_should_escape host_should_escape equal_fold split_host_port segments normalize_parsed
    normalize_path url_string canonical_url hostname port cleaned_path cert_path_error has_dot_dot
    bytes_eq has_prefix validate_cert_chain_host_port
program = tt

abbrev seen : Url
seen = record {
  scheme = codes "https";
  user = false;
  host = codes "S3.amazonaws.com:443";
  path = codes "/echo.api/../echo.api//a b.pem";
  raw_query = codes "x=1";
}

abbrev escaping : Url
escaping = record seen { path = codes "/echo.api/../cert" }

seen_runs : normalize_parsed seen ≡ ok (codes "https://s3.amazonaws.com/echo.api/a%20b.pem?x=1")
unfolding program
seen_runs = refl

escaping_runs : normalize_parsed escaping ≡ err (errorf cert_url_traversal)
unfolding program
escaping_runs = refl

bare_prefix_runs :
    normalize_parsed (record seen { path = codes "/echo.api/" }) ≡ err (errorf cert_url_invalid)
unfolding program
bare_prefix_runs = refl

port_runs :
    normalize_parsed (record seen { host = codes "s3.amazonaws.com:0" })
    ≡ err (errorf cert_url_invalid)
unfolding program
port_runs = refl

userinfo_runs : normalize_parsed (record seen { user = true }) ≡ err (errorf cert_url_userinfo)
unfolding program
userinfo_runs = refl

clean_runs : clean (codes "a/../../b/./c//") ≡ codes "../b/c"
unfolding program
clean_runs = refl

unescape_runs : unescape (codes "a%20b%2f") ≡ some (codes "a b/")
unfolding program
unescape_runs = refl

abbrev canonical_text : List ℕ
canonical_text = codes "https://s3.amazonaws.com/echo.api/a%20b.pem?x=1"

abbrev canonical_seen : Url
canonical_seen = canonical_url (clean_rooted (segments seen.path)) seen.raw_query

-- A parser that knows two texts.
abbrev parse : List ℕ → Result Foreign Url
parse raw = if bytes_eq raw canonical_text then ok canonical_seen else ok seen

canonical_runs : normalize_cert_chain_url parse (codes "u") ≡ ok canonical_text
unfolding program normalize_cert_chain_url
canonical_runs = refl

parses_runs : parse (codes "u") ≡ ok seen
unfolding bytes_eq
parses_runs = refl

parses_back_runs : parse canonical_text ≡ ok canonical_seen
unfolding bytes_eq
parses_back_runs = refl

normalize_parsed-eq-ok_iff_example :
    (normalize_parsed seen ≡ ok canonical_text)
    ↔ (Addressed seen × IsUnder (segments seen.path) × (canonical_text ≡ canonical_form seen))
normalize_parsed-eq-ok_iff_example = normalize_parsed-eq-ok_iff seen canonical_text

normalize_parsed-eq-err_example :
    (s : Sentinel) × (errorf cert_url_traversal ≡ errorf s) × Refused escaping s
normalize_parsed-eq-err_example =
    normalize_parsed-eq-err escaping (errorf cert_url_traversal) escaping_runs

normalize_cert_chain_url_idempotent_example :
    normalize_cert_chain_url parse canonical_text ≡ ok canonical_text
normalize_cert_chain_url_idempotent_example =
    normalize_cert_chain_url_idempotent parse (codes "u") canonical_text seen parses_runs
      canonical_runs parses_back_runs

abbrev all_bytes : List ℕ → Bool
all_bytes [] = true
all_bytes (c ∷ s) = ltb c 256 && all_bytes s

decided : (s : List ℕ) → all_bytes s ≡ true → AreBytes s
decided [] h = tt
decided (c ∷ s) h =
    let (small, rest) = and-eq-true (ltb c 256) (all_bytes s) h in (ground arith, decided s rest)

escaping_bytes : AreBytes escaping.path
escaping_bytes = decided escaping.path refl

seen_bytes : AreBytes seen.path
seen_bytes = decided seen.path refl
