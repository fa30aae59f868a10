-- ===== src/Fetch/Bounds.antt =====
-- What a fetch can contact, and what it can return.
use billy.Base.{
  ℕ, zero, suc, ◌+◌, ◌≤◌, leb, List, length, take, length-append, length-take_of_le, ◌<◌, Option,
  none, some, ◌≡◌, refl, arith, All, All-append, inl, inr, Bool-cases,
}
use billy.Errors.{ok, err, Error, errorf, cert_fetch, Result-cases}
use billy.Fetch.{
  Network, HttpClient, Response, use_last_response, fetch_http_client, max_certificate_chain_bytes,
  status_ok, client_do, read_limited, read_bundle, fetch_certificate_chain_once, fetch_attempts,
  fetch_certificate_chain,
}

fetch_http_client-check_redirect :
    (injected : Option HttpClient) → (fetch_http_client injected).check_redirect ≡ use_last_response
unfolding fetch_http_client
fetch_http_client-check_redirect none = refl
fetch_http_client-check_redirect (some client) = refl

read_limited_of_ok :
    (limit : ℕ) (response : Response) (bundle : List ℕ)
    → read_limited limit response ≡ ok bundle
    → length bundle < limit
    → (bundle ≡ response.body) × (response.broken ≡ none)
unfolding read_limited
read_limited_of_ok limit response bundle h small =
    elim (Bool-cases (leb limit (length response.body))) [
      | inl l ↦
          let full : length (take limit response.body) ≡ limit =
            length-take_of_le limit response.body (ground arith) in
          absurd (ground arith)
      | inr l ↦ (ground arith, ground arith)
    ]

read_bundle_of_ok :
    (response : Response) (bundle : List ℕ)
    → read_bundle response ≡ ok bundle
    → (response.status ≡ status_ok)
      × (bundle ≡ response.body)
      × (response.broken ≡ none)
      × (length bundle ≤ max_certificate_chain_bytes)
unfolding read_bundle
read_bundle_of_ok response bundle h =
    let small : length bundle ≤ max_certificate_chain_bytes = ground arith in
    let (whole, unbroken) =
      read_limited_of_ok (max_certificate_chain_bytes + 1) response bundle (ground arith)
        (omega arith) in
    (ground arith, whole, unbroken, small)

-- The bundle is what a server sent, whole, with the status 200.
pub record Served (net : Network) (client : HttpClient) (url bundle : List ℕ) : Type 0 where
  pub attempt : ℕ
  pub response : Response
  pub answered : net.round_trip client.transport attempt url ≡ ok response
  pub status : response.status ≡ status_ok
  pub whole : bundle ≡ response.body
  pub unbroken : response.broken ≡ none

module _ (net : Network) (client : HttpClient)
    (hardened : client.check_redirect ≡ use_last_response) (url : List ℕ) where
  -- Only this URL, at most so often.
  abbrev Only : ℕ → List (List ℕ) → Type 0
  Only n contacted = All (λ u. u ≡ url) contacted × (length contacted ≤ n)

  once_contacts : (attempt : ℕ) → Only 1 (fetch_certificate_chain_once net client attempt url).0
  unfolding fetch_certificate_chain_once client_do
  once_contacts attempt = elim (Result-cases (net.new_request url)) [
    | inl (u, e) ↦
        rw (e, fetch_certificate_chain_once) (rw (hardened, client_do) ((refl, tt), omega arith))
    | inr (cause, e) ↦ rw (e, fetch_certificate_chain_once) (tt, omega arith)
  ]

  attempts_contact :
      (left attempt : ℕ) → Only (suc left) (fetch_attempts net client url left attempt).0
  unfolding fetch_attempts
  attempts_contact zero attempt = once_contacts attempt
  attempts_contact (suc left) attempt =
      let here = once_contacts attempt in
      let later = attempts_contact left (attempt + 1) in
      elim (Result-cases (fetch_certificate_chain_once net client attempt url).1) [
        | inl (bundle, e) ↦ rw (e, fetch_attempts) (here.0, omega (arith, here.1))
        | inr (last, e) ↦
            rw (e, fetch_attempts)
              (elim (Bool-cases (net.done attempt)) [
                | inl d ↦ rw d (here.0, omega (arith, here.1))
                | inr d ↦ rw d (
                  All-append (λ u. u ≡ url) _ _ here.0 later.0,
                  omega (
                    arith,
                    length-append {0} (fetch_certificate_chain_once net client attempt url).0
                        (fetch_attempts net client url left (attempt + 1)).0,
                    here.1,
                    later.1,
                  ),
                )
              ])
      ]

  attempts_error :
      (left attempt : ℕ) (e : Error)
      → (fetch_attempts net client url left attempt).1 ≡ err e
      → e ≡ errorf cert_fetch
  unfolding fetch_attempts
  attempts_error zero attempt e h = ground arith
  attempts_error (suc left) attempt e h = ground (arith, attempts_error left (attempt + 1) e)

  once-Served :
      (attempt : ℕ) (bundle : List ℕ)
      → (fetch_certificate_chain_once net client attempt url).1 ≡ ok bundle
      → Served net client url bundle × (length bundle ≤ max_certificate_chain_bytes)
  unfolding fetch_certificate_chain_once client_do
  once-Served attempt bundle h = elim (Result-cases (net.new_request url)) [
    | inr (cause, e) ↦ cc (rw (e, fetch_certificate_chain_once) at h)
    | inl (u, e) ↦ elim (Result-cases (net.round_trip client.transport attempt url)) [
      | inr (cause, r) ↦ cc (rw (e, fetch_certificate_chain_once, hardened, client_do, r) at h)
      | inl (response, r) ↦
          let (status, whole, unbroken, small) =
            read_bundle_of_ok response bundle
              (rw (e, fetch_certificate_chain_once, hardened, client_do, r) at h) in
          (
            record {
              attempt = attempt;
              response = response;
              answered = r;
              status = status;
              whole = whole;
              unbroken = unbroken;
            },
            small,
          )
    ]
  ]

  attempts-Served :
      (left attempt : ℕ) (bundle : List ℕ)
      → (fetch_attempts net client url left attempt).1 ≡ ok bundle
      → Served net client url bundle × (length bundle ≤ max_certificate_chain_bytes)
  unfolding fetch_attempts
  attempts-Served zero attempt bundle h = once-Served attempt bundle (ground arith)
  attempts-Served (suc left) attempt bundle h =
      elim (Result-cases (fetch_certificate_chain_once net client attempt url).1) [
        | inl (b, e) ↦ once-Served attempt bundle (ground arith)
        | inr (last, e) ↦ attempts-Served left (attempt + 1) bundle (ground arith)
      ]

module _ (net : Network) (injected : Option HttpClient) (url : List ℕ) where
  -- Whatever client is injected and however the network answers, a fetch makes at most two requests,
  -- every one for the URL that it was given: no redirect is followed.
  pub fetch_certificate_chain_contacts :
      All (λ u. u ≡ url) (fetch_certificate_chain net injected url).0
      × (length (fetch_certificate_chain net injected url).0 ≤ 2)
  unfolding fetch_certificate_chain
  fetch_certificate_chain_contacts =
      attempts_contact net (fetch_http_client injected) (fetch_http_client-check_redirect injected)
        url 1 1

  -- A bundle that a fetch returns is the whole body of a response with status 200 to a request for the
  -- URL, and at most 64 KiB long.
  pub fetch_certificate_chain-Served :
      (bundle : List ℕ)
      → (fetch_certificate_chain net injected url).1 ≡ ok bundle
      → Served net (fetch_http_client injected) url bundle
        × (length bundle ≤ max_certificate_chain_bytes)
  unfolding fetch_certificate_chain
  fetch_certificate_chain-Served bundle h =
      attempts-Served net (fetch_http_client injected) (fetch_http_client-check_redirect injected)
        url 1 1 bundle h

  -- A fetch that fails wraps the fetch sentinel and nothing else.
  pub fetch_certificate_chain_error :
      (e : Error) → (fetch_certificate_chain net injected url).1 ≡ err e → e ≡ errorf cert_fetch
  unfolding fetch_certificate_chain
  fetch_certificate_chain_error e h =
      attempts_error net (fetch_http_client injected) (fetch_http_client-check_redirect injected)
        url 1 1 e h
