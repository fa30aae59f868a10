-- ===== src/Url/Normalize.antt =====
-- `normalizeCertChainURL` of pkg/alexaverify/url.go, and `URL.String` on what it builds.
--
-- A text is the list of its bytes; the scheme and the host are lists of code points, since
-- `strings.EqualFold` compares those. `url.Parse` is the argument `parse`.
use billy.Base.{
  ℕ, bytes_eq, has_prefix, codes, Bool, false, ◌||◌, List, [], ◌∷◌, ◌++◌, if◌then◌else◌, any,
  is_empty,
}
use billy.Errors.{
  Result, ok, err, ◌>>=◌, Error, Foreign, errorf, errorf_both, cert_url_invalid, cert_url_userinfo,
  cert_url_traversal,
}
use billy.Url.Clean.{clean, split_slash, dot_dot}
use billy.Url.Escape.{escape, path_should_escape, host_should_escape}
use billy.Url.Host.{equal_fold, split_host_port}

-- The fields of `url.URL` that the code reads or sets; `user` says whether there is userinfo.
pub record Url : Type 0 where
  pub scheme : List ℕ
  pub user : Bool
  pub host : List ℕ
  pub path : List ℕ
  pub raw_query : List ℕ

-- pkg/alexaverify/constants.go
abbrev pub valid_cert_scheme : List ℕ
valid_cert_scheme = codes "https"

abbrev pub valid_cert_host : List ℕ
valid_cert_host = codes "s3.amazonaws.com"

abbrev pub valid_cert_path_prefix : List ℕ
valid_cert_path_prefix = codes "/echo.api/"

abbrev pub valid_cert_port : List ℕ
valid_cert_port = codes "443"

unfoldable pub hostname : Url → List ℕ
hostname u = (split_host_port u.host).0

unfoldable pub port : Url → List ℕ
port u = (split_host_port u.host).1

-- `URL.String` for a URL with a scheme, a host and a path that begins with a slash, and with no
-- userinfo and no fragment.
unfoldable pub url_string : Url → List ℕ
url_string u =
    u.scheme
    ++ (codes "://"
        ++ (escape host_should_escape u.host
            ++ (escape path_should_escape u.path
                ++ (if is_empty u.raw_query then [] else b'?' ∷ u.raw_query))))

unfoldable pub validate_cert_chain_host_port : Url → Result Error (Unit {0})
validate_cert_chain_host_port u =
    if equal_fold (hostname u) valid_cert_host
    then if is_empty (port u) || bytes_eq (port u) valid_cert_port
      then ok tt
      else err (errorf cert_url_invalid)
    else err (errorf cert_url_invalid)

-- `slices.Contains(strings.Split(original, "/"), "..")`
unfoldable pub has_dot_dot : List ℕ → Bool
has_dot_dot original = any (λ part. bytes_eq part dot_dot) (split_slash original)

unfoldable pub cert_path_error : List ℕ → Error
cert_path_error original =
    if has_dot_dot original then errorf cert_url_traversal else errorf cert_url_invalid

-- `path.Clean`, with a relative result replaced by the root.
unfoldable pub cleaned_path : List ℕ → List ℕ
cleaned_path path = if has_prefix (clean path) (codes "/") then clean path else codes "/"

unfoldable pub canonical_url : List ℕ → List ℕ → Url
canonical_url path raw_query = record {
  scheme = valid_cert_scheme;
  user = false;
  host = valid_cert_host;
  path = path;
  raw_query = raw_query;
}

-- The checks on the path, once the scheme, the userinfo, the host and the port have passed.
unfoldable pub normalize_path : Url → Result Error (List ℕ)
normalize_path u =
    if has_prefix (cleaned_path u.path) valid_cert_path_prefix
    then ok (url_string (canonical_url (cleaned_path u.path) u.raw_query))
    else err (cert_path_error u.path)

-- What follows the parse.
unfoldable pub normalize_parsed : Url → Result Error (List ℕ)
normalize_parsed u =
    if equal_fold u.scheme valid_cert_scheme
    then if u.user
      then err (errorf cert_url_userinfo)
      else (validate_cert_chain_host_port u >>= λ _. normalize_path u)
    else err (errorf cert_url_invalid)

unfoldable pub normalize_cert_chain_url :
    (List ℕ → Result Foreign Url) → List ℕ → Result Error (List ℕ)
normalize_cert_chain_url parse raw = elim (parse raw) [
  | ok u ↦ normalize_parsed u
  | err cause ↦ err (errorf_both cert_url_invalid cause)
]
