-- ===== src/Load/Trust.antt =====
-- Every chain in the cache, and every chain that a load returns, has been validated.
use billy.Base.{ℕ, List, ◌≡◌, ◌⊎◌, refl, arith, Option, none, some, Option-cases, inl, inr}
use mathlib.Core.Path.{subst}
use billy.Base.Int.{ℤ, ◌≤ℤ◌}
use billy.Cache.{Key, Pointer, CacheEntry, CertCache, get}
use billy.Cache.Keeps.{AllStored, AllStored-put, AllStored-remove, AllStored-get}
use billy.Chain.{ParsedChain, parse_pem_chain, validate_chain, verify_certificate_hostname}
use billy.Crypto.{Crypto}
use billy.Errors.{Result, ok, err, Error, Result-cases}
use billy.Fetch.{Network, HttpClient, fetch_certificate_chain}
use billy.Load.{
  Loaded, validate_cached_leaf_time, check_chain, load_hit, settle, checked_bundle,
  load_certificate_chain,
}

module _ (x : Crypto) (roots : Option x.CertPool) where
  -- The chain was validated at some time, and its leaf is valid for the Alexa API domain.
  pub record IsTrusted (chain : ParsedChain x) : Type 0 where
    pub at : ℤ
    pub validated : validate_chain x roots chain at ≡ ok tt
    pub hostname : verify_certificate_hostname x chain.leaf ≡ ok tt

  -- Trusted, and checked for this time: by its leaf's dates, or by validating it.
  pub record IsUsable (chain : ParsedChain x) (now : ℤ) : Type 0 where
    pub trusted : IsTrusted chain
    pub current :
        ((x.not_before chain.leaf ≤ℤ now) × (now ≤ℤ x.not_after chain.leaf))
        ⊎ (validate_chain x roots chain now ≡ ok tt)

  abbrev pub AllTrusted : CertCache (ParsedChain x) → Type 0
  AllTrusted c = AllStored (λ (p : Pointer (ParsedChain x)). IsTrusted p.target) c.entries

  -- What a load may leave behind and return at a time.
  pub record IsSound (now : ℤ) (l : Loaded x) : Type 0 where
    pub cached : AllTrusted l.cache
    pub returned : (chain : ParsedChain x) → l.result ≡ some (ok chain) → IsUsable chain now

  in_dates :
      (chain : ParsedChain x) (now : ℤ)
      → validate_cached_leaf_time x chain now ≡ ok tt
      → (x.not_before chain.leaf ≤ℤ now) × (now ≤ℤ x.not_after chain.leaf)
  unfolding validate_cached_leaf_time
  in_dates chain now h = (ground arith, ground arith)

  hit-IsSound :
      (later : CertCache (ParsedChain x)) (url : Key) (now : ℤ) (found : Pointer (ParsedChain x))
      → AllTrusted later
      → IsTrusted found.target
      → IsSound now (load_hit x later url now found)
  unfolding load_hit
  hit-IsSound later url now found kept trusted =
      elim (Result-cases (validate_cached_leaf_time x found.target now)) [
        | inl (u, e) ↦
            rw (e, load_hit)
              (record {
                cached = kept;
                returned = λ chain q.
                    let same : found.target ≡ chain = cc in
                    subst (λ c. IsUsable c now) same
                      (record { trusted = trusted; current = inl (in_dates found.target now e) });
              })
        | inr (cause, e) ↦
            rw (e, load_hit)
              (record {
                cached =
                    AllStored-remove (λ (p : Pointer (ParsedChain x)). IsTrusted p.target) later url
                      found kept;
                returned = λ chain q. cc;
              })
      ]

  checked :
      (now : ℤ) (parsed chain : ParsedChain x)
      → check_chain x roots now parsed ≡ ok chain
      → (parsed ≡ chain)
        × (validate_chain x roots parsed now ≡ ok tt)
        × (verify_certificate_hostname x parsed.leaf ≡ ok tt)
  unfolding check_chain
  checked now parsed chain h = elim (Result-cases (validate_chain x roots parsed now)) [
    | inr (cause, e) ↦ cc (rw (e, check_chain) at h)
    | inl (u, e) ↦ elim (Result-cases (verify_certificate_hostname x parsed.leaf)) [
      | inr (cause, n) ↦ cc (rw (e, n, check_chain) at h)
      | inl (u', n) ↦ (cc (rw (e, n, check_chain) at h), e, n)
    ]
  ]

  checked_bundle_usable :
      (now : ℤ) (fetched : Result Error (List ℕ)) (chain : ParsedChain x)
      → checked_bundle x roots now fetched ≡ some (ok chain)
      → (validate_chain x roots chain now ≡ ok tt)
        × (verify_certificate_hostname x chain.leaf ≡ ok tt)
  unfolding checked_bundle
  checked_bundle_usable now (err e) chain h = cc
  checked_bundle_usable now (ok bundle) chain h = elim (Option-cases (parse_pem_chain x bundle)) [
    | inl e ↦ cc (rw (e, checked_bundle) at h)
    | inr (err cause, e) ↦ cc (rw (e, checked_bundle) at h)
    | inr (ok parsed, e) ↦
        let q : check_chain x roots now parsed ≡ ok chain = cc (rw (e, checked_bundle) at h) in
        let (same, valid, named) = checked now parsed chain q in
        (
          subst (λ c. validate_chain x roots c now ≡ ok tt) same valid,
          subst (λ (c : ParsedChain x). verify_certificate_hostname x c.leaf ≡ ok tt) same named,
        )
  ]

  settle-IsSound :
      (now : ℤ) (visited : List (Key × CacheEntry (ParsedChain x)))
      (later : CertCache (ParsedChain x)) (url : Key) (address : ℕ) (contacted : List (List ℕ))
      (r : Option (Result Error (ParsedChain x)))
      → AllTrusted later
      → ((chain : ParsedChain x)
          → r ≡ some (ok chain)
          → (validate_chain x roots chain now ≡ ok tt)
            × (verify_certificate_hostname x chain.leaf ≡ ok tt))
      → IsSound now (settle x visited later url address contacted r)
  unfolding settle
  settle-IsSound now visited later url address contacted none kept good = record {
    cached = kept;
    returned = λ chain q. cc;
  }
  settle-IsSound now visited later url address contacted (some (err e)) kept good = record {
    cached = kept;
    returned = λ chain q. cc;
  }
  settle-IsSound now visited later url address contacted (some (ok chain)) kept good =
      let (valid, named) = good chain refl in
      let trusted : IsTrusted chain = record { at = now; validated = valid; hostname = named } in
      record {
        cached =
            AllStored-put (λ (p : Pointer (ParsedChain x)). IsTrusted p.target) visited later url
              (record { address = address; target = chain }) trusted kept;
        returned = λ other q.
            let same : chain ≡ other = cc in
            subst (λ c. IsUsable c now) same (record { trusted = trusted; current = inr valid });
      }

  module _ (net : Network) (client : Option HttpClient) where
    pub load_certificate_chain-IsSound :
        (cache later : CertCache (ParsedChain x))
        (visited : List (Key × CacheEntry (ParsedChain x))) (address : ℕ) (url : Key) (now : ℤ)
        → AllTrusted cache
        → AllTrusted later
        → IsSound now
            (load_certificate_chain x net client roots cache later visited address url now)
    unfolding load_certificate_chain
    load_certificate_chain-IsSound cache later visited address url now before after =
        elim (Option-cases (get cache url)) [
          | inr (found, e) ↦
              rw (e, load_certificate_chain)
                (hit-IsSound later url now found after (
                  AllStored-get (λ (p : Pointer (ParsedChain x)). IsTrusted p.target) cache url
                    found before e))
          | inl e ↦
              rw (e, load_certificate_chain)
                (settle-IsSound now visited later url address _ _ after
                  (checked_bundle_usable now (fetch_certificate_chain net client url).1))
        ]

    -- If every cached chain is trusted, both when the load looks the key up and when it changes the
    -- cache, then a chain that the load returns is trusted and was checked for the current time, on
    -- a hit as on a miss.
    pub load_certificate_chain-IsUsable :
        (cache later : CertCache (ParsedChain x))
        (visited : List (Key × CacheEntry (ParsedChain x))) (address : ℕ) (url : Key) (now : ℤ)
        (chain : ParsedChain x)
        → AllTrusted cache
        → AllTrusted later
        → (load_certificate_chain x net client roots cache later visited address url now).result
          ≡ some (ok chain)
        → IsUsable chain now
    load_certificate_chain-IsUsable cache later visited address url now chain before after h =
        (load_certificate_chain-IsSound cache later visited address url now before after).returned
          chain h

    -- Under the same conditions every chain that is cached after the load is trusted, whether the load
    -- hit, missed or failed.
    pub load_certificate_chain-AllTrusted :
        (cache later : CertCache (ParsedChain x))
        (visited : List (Key × CacheEntry (ParsedChain x))) (address : ℕ) (url : Key) (now : ℤ)
        → AllTrusted cache
        → AllTrusted later
        → AllTrusted
            (load_certificate_chain x net client roots cache later visited address url now).cache
    load_certificate_chain-AllTrusted cache later visited address url now before after =
        (load_certificate_chain-IsSound cache later visited address url now before after).cached
