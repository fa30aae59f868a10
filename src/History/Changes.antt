-- ===== src/History/Changes.antt =====
-- What one call can do to the cache: nothing, one `put`, or one `remove`.
use mathlib.Core.List.{Permᴰ}
use billy.Base.{
  ℕ, ◌+◌, ◌^◌, ◌≤◌, ◌<◌, List, is_empty, ◌≡◌, arith, Option, none, some, Bool-cases, Option-cases,
  inl, inr,
}
use billy.Base.Int.{ℤ}
use billy.Cache.{Key, Pointer, CacheEntry, CertCache, lookup, get, put, remove}
use billy.Cache.Invariant.{IsValid, put-IsValid, remove-IsValid}
use billy.Chain.{ParsedChain}
use billy.Crypto.{Crypto}
use billy.Errors.{Result, ok, err, Error, Result-cases}
use billy.Fetch.{HttpClient}
use billy.Load.{validate_cached_leaf_time, load_hit, settle, load_certificate_chain}
use billy.Timestamp.{verify_timestamp}
use billy.Url.Normalize.{normalize_cert_chain_url}
use billy.Verifier.{Verifier, now, effective_tolerance}
use billy.Verify.{
  Services, Moment, Header, header_get, signature_header, cert_chain_url_header, load,
  verify_signature, verify_fresh, verify, warm,
}

module _ {A : Type 0} where
  -- The caches that one call can leave.
  pub data Changes (visited : List (Key × CacheEntry A)) (c : CertCache A)
      : CertCache A → Type 0 where
    unchanged : Changes visited c c
    stored : (key : Key) (chain : Pointer A) → Changes visited c (put visited c key chain)
    dropped : (key : Key) (chain : Pointer A) → Changes visited c (remove c key chain)

  put_next-le :
      (visited : List (Key × CacheEntry A)) (c : CertCache A) (key : Key) (chain : Pointer A)
      → (put visited c key chain).next ≤ c.next + 1
  unfolding put
  put_next-le visited c key chain = elim (Option-cases (lookup key c.entries)) [
    | inr (old, e) ↦ rw (e, put) (omega arith)
    | inl e ↦ rw (e, put) (omega arith)
  ]

  remove_next :
      (c : CertCache A) (key : Key) (chain : Pointer A) → (remove c key chain).next ≡ c.next
  unfolding remove
  remove_next c key chain = ground arith

  -- A change keeps the invariant, and uses up at most one number of the counter.
  pub Changes-IsValid :
      (visited : List (Key × CacheEntry A)) (c c' : CertCache A)
      → Changes visited c c'
      → Permᴰ visited c.entries
      → c.next + 1 < 2 ^ 64
      → IsValid c
      → IsValid c' × (c'.next ≤ c.next + 1)
  Changes-IsValid visited c _ Changes.unchanged order small v = (v, omega arith)
  Changes-IsValid visited c _ (Changes.stored key chain) order small v =
      (put-IsValid visited c key chain order small v, put_next-le visited c key chain)
  Changes-IsValid visited c _ (Changes.dropped key chain) order small v =
      (remove-IsValid c key chain v, omega (arith, remove_next c key chain))

module _ (x : Crypto) where
  hit-Changes :
      (visited : List (Key × CacheEntry (ParsedChain x))) (later : CertCache (ParsedChain x))
      (url : Key) (now : ℤ) (found : Pointer (ParsedChain x))
      → Changes visited later (load_hit x later url now found).cache
  unfolding load_hit
  hit-Changes visited later url now found =
      elim (Result-cases (validate_cached_leaf_time x found.target now)) [
        | inl (u, e) ↦ rw (e, load_hit) Changes.unchanged
        | inr (cause, e) ↦ rw (e, load_hit) (Changes.dropped url found)
      ]

  settle-Changes :
      (visited : List (Key × CacheEntry (ParsedChain x))) (later : CertCache (ParsedChain x))
      (url : Key) (address : ℕ) (contacted : List (List ℕ))
      (r : Option (Result Error (ParsedChain x)))
      → Changes visited later (settle x visited later url address contacted r).cache
  unfolding settle
  settle-Changes visited later url address contacted none = Changes.unchanged
  settle-Changes visited later url address contacted (some (err e)) = Changes.unchanged
  settle-Changes visited later url address contacted (some (ok chain)) = Changes.stored url _

  module _ {Logger : Type 0} (env : Services) (v : Verifier x.CertPool HttpClient Logger) where
    load-Changes : (m : Moment x) (url : Key) → Changes m.visited m.later (load x env v m url).cache
    unfolding load load_certificate_chain
    load-Changes m url = elim (Option-cases (get m.cache url)) [
      | inr (found, e) ↦ rw (e, load_certificate_chain) (hit-Changes m.visited m.later url _ found)
      | inl e ↦ rw (e, load_certificate_chain) (settle-Changes m.visited m.later url m.address _ _)
    ]

    signature-Changes :
        (m : Moment x) (body signature raw : List ℕ)
        → Changes m.visited m.later (verify_signature x env v m body signature raw).cache
    unfolding verify_signature
    signature-Changes m body signature raw =
        elim (Result-cases (normalize_cert_chain_url env.parse_url raw)) [
          | inr (cause, n) ↦ rw (n, verify_signature) Changes.unchanged
          | inl (url, n) ↦ rw (n, verify_signature) (load-Changes m url)
        ]

    fresh-Changes :
        (m : Moment x) (body signature raw : List ℕ)
        → Changes m.visited m.later (verify_fresh x env v m body signature raw).cache
    unfolding verify_fresh
    fresh-Changes m body signature raw =
        elim (Result-cases (
          verify_timestamp env.unmarshal env.parse_time body (now env.time_now v m.first)
            (effective_tolerance v))) [
              | inr (cause, t) ↦ rw (t, verify_fresh) Changes.unchanged
              | inl (u, t) ↦ rw (t, verify_fresh) (signature-Changes m body signature raw)
            ]

    pub verify-Changes :
        (m : Moment x) (body : List ℕ) (hdr : Header)
        → Changes m.visited m.later (verify x env v m body hdr).cache
    unfolding verify
    verify-Changes m body hdr = elim (Bool-cases (is_empty (header_get hdr signature_header))) [
      | inl e ↦ rw (e, verify) Changes.unchanged
      | inr e ↦ elim (Bool-cases (is_empty (header_get hdr cert_chain_url_header))) [
        | inl e' ↦ rw (e, verify, e') Changes.unchanged
        | inr e' ↦ rw (e, verify, e') (fresh-Changes m body _ _)
      ]
    ]

    pub warm-Changes :
        (m : Moment x) (seed_url : List ℕ)
        → Changes m.visited m.later (warm x env v m seed_url).cache
    unfolding warm
    warm-Changes m seed_url =
        elim (Result-cases (normalize_cert_chain_url env.parse_url seed_url)) [
          | inr (cause, n) ↦ rw (n, warm) Changes.unchanged
          | inl (url, n) ↦ rw (n, warm) (load-Changes m url)
        ]
