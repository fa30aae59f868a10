-- ===== src/Load/Outcome.antt =====
-- A load always ends, contacts only its own URL, and wraps one sentinel when it fails.
use billy.Base.{
  ℕ, ◌≤◌, List, [], length, ◌≡◌, refl, sym, arith, All, Option, none, some, Option-cases, inl, inr,
}
use mathlib.Core.Path.{subst}
use billy.Base.Int.{ℤ}
use billy.Cache.{Key, Pointer, CacheEntry, CertCache, get}
use billy.Chain.{ParsedChain, roots_of, validate_chain, verify_certificate_hostname}
use billy.Chain.Split.{Progresses, parse_pem_chain_total}
use billy.Crypto.{Crypto}
use billy.Errors.{
  Result, ok, err, ◌>>=◌, Error, errorf, untrusted_chain, cert_hostname, cert_fetch, Sentinel,
  Result-cases,
}
use billy.Fetch.{Network, HttpClient, fetch_certificate_chain}
use billy.Fetch.Bounds.{fetch_certificate_chain_contacts, fetch_certificate_chain_error}
use billy.Load.{
  validate_cached_leaf_time, check_chain, load_hit, settle, checked_bundle, load_certificate_chain,
}

-- The result is there, and an error in it wraps one sentinel.
abbrev pub Ends {ℓ} : {A : Type ℓ} → Option (Result Error A) → Type ℓ
Ends {A} r =
    (outcome : Result Error A) × (r ≡ some outcome)
    × ((e : Error) → outcome ≡ err e → (s : Sentinel) × (e ≡ errorf s))

-- A value, or an error that is one sentinel with a text.
pub data IsEnded {ℓ} {A : Type ℓ} : Option (Result Error A) → Type ℓ where
  returned : (a : A) → IsEnded (some (ok a))
  failed : (s : Sentinel) → IsEnded (some (err (errorf s)))

ended {ℓ} : {A : Type ℓ} (r : Option (Result Error A)) → Ends r → IsEnded r
ended none (outcome, run, fails) = cc
ended (some (ok a)) c = IsEnded.returned a
ended {A} (some (err e)) (outcome, run, fails) =
    let (s, same) = fails e (cc) in
    subst (λ e. IsEnded {A = A} (some (err e))) (sym same) (IsEnded.failed s)

module _ (x : Crypto) (roots : Option x.CertPool) where
  pub hit_contacts :
      (later : CertCache (ParsedChain x)) (url : Key) (now : ℤ) (found : Pointer (ParsedChain x))
      → (load_hit x later url now found).contacted ≡ []
  unfolding load_hit
  hit_contacts later url now found =
      elim (Result-cases (validate_cached_leaf_time x found.target now)) [
        | inl (u, e) ↦ rw (e, load_hit)
        | inr (cause, e) ↦ rw (e, load_hit)
      ]

  dates_error :
      (chain : ParsedChain x) (now : ℤ) (e : Error)
      → validate_cached_leaf_time x chain now ≡ err e
      → e ≡ errorf untrusted_chain
  unfolding validate_cached_leaf_time
  dates_error chain now e h = ground arith

  hit-Ends :
      (later : CertCache (ParsedChain x)) (url : Key) (now : ℤ) (found : Pointer (ParsedChain x))
      → Ends (load_hit x later url now found).result
  unfolding load_hit
  hit-Ends later url now found =
      elim (Result-cases (validate_cached_leaf_time x found.target now)) [
        | inl (u, e) ↦ rw (e, load_hit) (ok found.target, refl, λ cause q. cc)
        | inr (cause, e) ↦
            rw (e, load_hit)
              (
                err cause,
                refl,
                λ e' q. (untrusted_chain, cc (dates_error found.target now cause e)),
              )
      ]

  validate_error :
      (chain : ParsedChain x) (now : ℤ) (e : Error)
      → validate_chain x roots chain now ≡ err e
      → e ≡ errorf untrusted_chain
  unfolding validate_chain roots_of
  validate_error chain now e h = ground arith

  hostname_error :
      (leaf : x.Certificate) (e : Error)
      → verify_certificate_hostname x leaf ≡ err e
      → e ≡ errorf cert_hostname
  unfolding verify_certificate_hostname
  hostname_error leaf e h = ground arith

  check_error :
      (now : ℤ) (chain : ParsedChain x) (e : Error)
      → check_chain x roots now chain ≡ err e
      → (s : Sentinel) × (e ≡ errorf s)
  unfolding check_chain
  check_error now chain e h = elim (Result-cases (validate_chain x roots chain now)) [
    | inr (cause, v) ↦
        let same : cause ≡ e = cc (rw (v, check_chain) at h) in
        (untrusted_chain, cc (validate_error chain now cause v))
    | inl (u, v) ↦ elim (Result-cases (verify_certificate_hostname x chain.leaf)) [
      | inr (cause, n) ↦
          let same : cause ≡ e = cc (rw (v, n, check_chain) at h) in
          (cert_hostname, cc (hostname_error chain.leaf cause n))
      | inl (u', n) ↦ cc (rw (v, n, check_chain) at h)
    ]
  ]

  bundle-Ends :
      (now : ℤ) (fetched : Result Error (List ℕ))
      → Progresses x
      → ((e : Error) → fetched ≡ err e → e ≡ errorf cert_fetch)
      → Ends (checked_bundle x roots now fetched)
  unfolding checked_bundle
  bundle-Ends now (err e) progresses fails = (err e, refl, λ e' q. (cert_fetch, cc (fails e refl)))
  bundle-Ends now (ok bundle) progresses fails =
      let (parsed, run, wrong) = parse_pem_chain_total x bundle progresses in
      rw (run, checked_bundle)
        (parsed >>= check_chain x roots now, refl, λ e q. failure parsed wrong e q)
    where
      failure :
          (parsed : Result Error (ParsedChain x))
          → ((e : Error) → parsed ≡ err e → e ≡ errorf untrusted_chain)
          → (e : Error) → (parsed >>= check_chain x roots now) ≡ err e
          → (s : Sentinel) × (e ≡ errorf s)
      failure (ok chain) wrong e q = check_error now chain e q
      failure (err cause) wrong e q = (untrusted_chain, cc (wrong cause refl))

  settle-Ends :
      (visited : List (Key × CacheEntry (ParsedChain x))) (later : CertCache (ParsedChain x))
      (url : Key) (address : ℕ) (contacted : List (List ℕ))
      (r : Option (Result Error (ParsedChain x)))
      → Ends r
      → Ends (settle x visited later url address contacted r).result
  unfolding settle
  settle-Ends visited later url address contacted none h = h
  settle-Ends visited later url address contacted (some (err e)) h = h
  settle-Ends visited later url address contacted (some (ok chain)) h = h

  settle_contacts :
      (visited : List (Key × CacheEntry (ParsedChain x))) (later : CertCache (ParsedChain x))
      (url : Key) (address : ℕ) (contacted : List (List ℕ))
      (r : Option (Result Error (ParsedChain x)))
      → (settle x visited later url address contacted r).contacted ≡ contacted
  unfolding settle
  settle_contacts visited later url address contacted none = refl
  settle_contacts visited later url address contacted (some (err e)) = refl
  settle_contacts visited later url address contacted (some (ok chain)) = refl

  module _ (net : Network) (client : Option HttpClient) (cache later : CertCache (ParsedChain x))
      (visited : List (Key × CacheEntry (ParsedChain x))) (address : ℕ) (url : Key) (now : ℤ) where
    pub load_certificate_chain-Ends :
        Progresses x
        → Ends
            (load_certificate_chain x net client roots cache later visited address url now).result
    unfolding load_certificate_chain
    load_certificate_chain-Ends progresses = elim (Option-cases (get cache url)) [
      | inr (found, e) ↦ rw (e, load_certificate_chain) (hit-Ends later url now found)
      | inl e ↦
          rw (e, load_certificate_chain)
            (settle-Ends visited later url address _ _ (
              bundle-Ends now (fetch_certificate_chain net client url).1 progresses
                (fetch_certificate_chain_error net client url)))
    ]

    -- A load ends with a chain or with an error that is one sentinel, if `pem.Decode` takes input
    -- whenever it finds a block.
    pub load_certificate_chain-IsEnded :
        Progresses x
        → IsEnded
            (load_certificate_chain x net client roots cache later visited address url now).result
    load_certificate_chain-IsEnded progresses = ended _ (load_certificate_chain-Ends progresses)

    -- A load contacts its own URL at most twice and no other; on a hit it contacts nothing.
    pub load_certificate_chain_contacts :
        All
          (λ u. u ≡ url)
          (load_certificate_chain x net client roots cache later visited address url now).contacted
        × (length
              (load_certificate_chain x net client roots cache later visited address url
                now).contacted
            ≤ 2)
    unfolding load_certificate_chain
    load_certificate_chain_contacts = elim (Option-cases (get cache url)) [
      | inr (found, e) ↦
          rw (e, load_certificate_chain, hit_contacts later url now found) (tt, omega arith)
      | inl e ↦
          rw (e, load_certificate_chain, settle_contacts visited later url address _ _)
            (fetch_certificate_chain_contacts net client url)
    ]
