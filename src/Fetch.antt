-- ===== src/Fetch.antt =====
-- pkg/alexaverify/fetch.go: `fetchHTTPClient`, `fetchCertificateChainOnce`, `fetchCertificateChain`.
--
-- The network and the context are the record `Network`: what a request is answered with, and whether
-- the context is done when the wait after an attempt ends. Each attempt gives the URLs that were
-- contacted beside its result.
pub mod Bounds
mod Examples
use billy.Base.{
  ℕ, zero, suc, ◌+◌, ◌-◌, ◌*◌, ◌==◌, leb, ltb, List, [], ◌∷◌, ◌++◌, length, take, Bool, true, false,
  if◌then◌else◌, Option, none, some, ◌||◌,
}
use billy.Errors.{Result, ok, err, Error, Foreign, errorf, cert_fetch}

-- constants.go: 64 << 10, and two attempts
abbrev pub max_certificate_chain_bytes : ℕ
max_certificate_chain_bytes = 65_536

abbrev pub certificate_fetch_attempts : ℕ
certificate_fetch_attempts = 2

abbrev pub status_ok : ℕ
status_ok = 200

-- The body is what the server sends, and whether the connection breaks after that.
pub record Response : Type 0 where
  pub status : ℕ
  pub location : List ℕ
  pub body : List ℕ
  pub broken : Option Foreign

-- `CheckRedirect`: nil, or the function that returns `http.ErrUseLastResponse`.
pub data RedirectPolicy : Type 0 where
  follow use_last_response : RedirectPolicy

-- The parts of `http.Client` that matter here; the transport is given by a number.
pub record HttpClient : Type 0 where
  pub transport : ℕ
  pub check_redirect : RedirectPolicy

pub record Network : Type 0 where
  -- `http.NewRequestWithContext`
  pub new_request : List ℕ → Result Foreign (Unit {0})
  -- One request through a transport, at an attempt, with no redirect followed.
  pub round_trip : ℕ → ℕ → List ℕ → Result Foreign Response
  -- Whether `ctx.Done()` is what ends the wait after an attempt.
  pub done : ℕ → Bool

-- The identities of the errors that the code makes itself.
abbrev pub bad_status : Foreign
bad_status = 1

abbrev pub too_large : Foreign
too_large = 2

abbrev pub too_many_redirects : Foreign
too_many_redirects = 3

-- A result and the URLs contacted for it, in order.
abbrev pub Traced : Type 0 → Type 0 → Type 0
Traced E A = List (List ℕ) × Result E A

abbrev pub default_http_client : HttpClient
default_http_client = record { transport = 0; check_redirect = use_last_response }

unfoldable pub fetch_http_client : Option HttpClient → HttpClient
fetch_http_client none = default_http_client
fetch_http_client (some client) = record client { check_redirect = use_last_response }

abbrev pub is_redirect : ℕ → Bool
is_redirect status =
    status == 301 || status == 302 || status == 303 || status == 307 || status == 308

-- `client.Do` with the default policy: redirects are followed, ten requests at most.
unfoldable pub do_following :
    ℕ → (List ℕ → Result Foreign Response) → List ℕ → Traced Foreign Response
do_following zero trip url = ([], err too_many_redirects)
do_following (suc hops) trip url = elim (trip url) [
  | err cause ↦ (url ∷ [], err cause)
  | ok response ↦ elim (is_redirect response.status) [
    | false ↦ (url ∷ [], ok response)
    | true ↦ let later = do_following hops trip response.location in (url ∷ later.0, later.1)
  ]
]

unfoldable pub client_do : Network → HttpClient → ℕ → List ℕ → Traced Foreign Response
client_do net client attempt url = elim client.check_redirect [
  | use_last_response ↦ (url ∷ [], net.round_trip client.transport attempt url)
  | follow ↦ do_following 10 (net.round_trip client.transport attempt) url
]

-- `io.ReadAll(io.LimitReader(body, limit))`
unfoldable pub read_limited : ℕ → Response → Result Foreign (List ℕ)
read_limited limit response =
    if leb limit (length response.body)
    then ok (take limit response.body)
    else elim response.broken [ some cause ↦ err cause | none ↦ ok response.body ]

-- What `fetchCertificateChainOnce` makes of a response.
unfoldable pub read_bundle : Response → Result Foreign (List ℕ)
read_bundle response =
    if response.status == status_ok
    then elim (read_limited (max_certificate_chain_bytes + 1) response) [
      | err cause ↦ err cause
      | ok bundle ↦
          if ltb max_certificate_chain_bytes (length bundle) then err too_large else ok bundle
    ]
    else err bad_status

unfoldable pub fetch_certificate_chain_once :
    Network → HttpClient → ℕ → List ℕ → Traced Foreign (List ℕ)
fetch_certificate_chain_once net client attempt url = elim (net.new_request url) [
  | err cause ↦ ([], err cause)
  | ok _ ↦
      let sent = client_do net client attempt url in
      (sent.0, elim sent.1 [ err cause ↦ err cause | ok response ↦ read_bundle response ])
]

-- The loop, with the attempts that are left after this one.
unfoldable pub fetch_attempts : Network → HttpClient → List ℕ → ℕ → ℕ → Traced Error (List ℕ)
fetch_attempts net client url zero attempt =
    let tried = fetch_certificate_chain_once net client attempt url in
    (tried.0, elim tried.1 [ ok bundle ↦ ok bundle | err last ↦ err (errorf cert_fetch) ])
fetch_attempts net client url (suc left) attempt =
    let tried = fetch_certificate_chain_once net client attempt url in
    let again = fetch_attempts net client url left (attempt + 1) in
    elim tried.1 [
      | ok bundle ↦ (tried.0, ok bundle)
      | err last ↦
          if net.done attempt
          then (tried.0, err (errorf cert_fetch))
          else (tried.0 ++ again.0, again.1)
    ]

unfoldable pub fetch_certificate_chain :
    Network → Option HttpClient → List ℕ → Traced Error (List ℕ)
fetch_certificate_chain net injected url =
    fetch_attempts net (fetch_http_client injected) url (certificate_fetch_attempts - 1) 1
