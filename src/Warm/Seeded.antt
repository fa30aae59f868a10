-- ===== src/Warm/Seeded.antt =====
-- What a warm-up does for the requests after it.
use mathlib.Core.List.{Permᴰ}
use mathlib.Core.Path.{subst}
use billy.Base.{
  ℕ, List, [], is_empty, ◌≡◌, refl, sym, ap, ◌∙◌, Option, none, some, Bool-cases, Option-cases, inl,
  inr,
}
use billy.Cache.{Key, Pointer, CertCache, get}
use billy.Cache.Invariant.{IsValid}
use billy.Cache.Refines.{get-put_self}
use billy.Chain.{ParsedChain}
use billy.Crypto.{Crypto}
use billy.Errors.{Result, ok, err, Error, Result-cases}
use billy.Fetch.{HttpClient}
use billy.Load.{load_hit, settle, load_certificate_chain, validate_cached_leaf_time}
use billy.Load.Outcome.{hit_contacts}
use billy.Timestamp.{verify_timestamp}
use billy.Url.Normalize.{normalize_cert_chain_url}
use billy.Verifier.{Verifier, now, effective_tolerance}
use billy.Verify.{
  Services, Moment, Header, header_get, signature_header, cert_chain_url_header, load, forget, warm,
  verify, verify_signature, verify_fresh,
}
use billy.Warm.{did_warm, warm_line, start_certificate_cache_warm}

module _ (x : Crypto) where
  -- The cache has a chain under this key.
  abbrev pub IsCached : Key → CertCache (ParsedChain x) → Type 0
  IsCached url cache = (found : Pointer (ParsedChain x)) × (get cache url ≡ some found)

  settle-IsCached :
      (m : Moment x) (url : Key) (contacted : List (List ℕ))
      (r : Option (Result Error (ParsedChain x))) (chain : ParsedChain x)
      → Permᴰ m.visited m.later.entries
      → IsValid m.later
      → (settle x m.visited m.later url m.address contacted r).result ≡ some (ok chain)
      → IsCached url (settle x m.visited m.later url m.address contacted r).cache
  unfolding settle
  settle-IsCached m url contacted none chain d v h = cc
  settle-IsCached m url contacted (some (err e)) chain d v h = cc
  settle-IsCached m url contacted (some (ok c)) chain d v h =
      (_, get-put_self m.visited m.later url (record { address = m.address; target = c }) d v)

  module _ {Logger : Type 0} (env : Services) (v : Verifier x.CertPool HttpClient Logger) where
    hit-IsCached :
        (later : CertCache (ParsedChain x)) (url : Key) (t : _) (found : Pointer (ParsedChain x))
        (chain : ParsedChain x)
        → get later url ≡ some found
        → (load_hit x later url t found).result ≡ some (ok chain)
        → IsCached url (load_hit x later url t found).cache
    unfolding load_hit
    hit-IsCached later url t found chain g h =
        elim (Result-cases (validate_cached_leaf_time x found.target t)) [
          | inl (u, e) ↦ rw (e, load_hit) (found, g)
          | inr (cause, e) ↦ cc (rw (e, load_hit) at h)
        ]

    -- A load that succeeds leaves its chain in the cache, unless another call changes it meanwhile.
    load-IsCached :
        (m : Moment x) (url : Key) (chain : ParsedChain x)
        → Permᴰ m.visited m.later.entries
        → IsValid m.later
        → m.cache ≡ m.later
        → (load x env v m url).result ≡ some (ok chain)
        → IsCached url (load x env v m url).cache
    unfolding load load_certificate_chain
    load-IsCached m url chain d valid alone h = elim (Option-cases (get m.cache url)) [
      | inr (found, g) ↦
          rw (g, load, load_certificate_chain)
            (hit-IsCached m.later url _ found chain (ap (λ c. get c url) (sym alone) ∙ g)
              (rw (g, load, load_certificate_chain) at h))
      | inl g ↦
          rw (g, load, load_certificate_chain)
            (settle-IsCached m url _ _ chain d valid (rw (g, load, load_certificate_chain) at h))
    ]

    forget-ok :
        (r : Option (Result Error (ParsedChain x)))
        → forget x env v r ≡ some (ok tt)
        → (chain : ParsedChain x) × (r ≡ some (ok chain))
    unfolding forget
    forget-ok none h = cc
    forget-ok (some (err e)) h = cc
    forget-ok (some (ok chain)) h = (chain, refl)

    warm_line-did_warm :
        (seed url : List ℕ) (r : Option (Result Error (Unit {0})))
        → warm_line seed r ≡ some (did_warm url)
        → r ≡ some (ok tt)
    unfolding warm_line
    warm_line-did_warm seed url none h = cc
    warm_line-did_warm seed url (some (err e)) h = cc
    warm_line-did_warm seed url (some (ok u)) h = refl

    warm-IsCached :
        (m : Moment x) (seed url : List ℕ)
        → normalize_cert_chain_url env.parse_url seed ≡ ok url
        → Permᴰ m.visited m.later.entries
        → IsValid m.later
        → m.cache ≡ m.later
        → (warm x env v m seed).result ≡ some (ok tt)
        → IsCached url (warm x env v m seed).cache
    unfolding warm
    warm-IsCached m seed url n d valid alone h =
        let (chain, q) = forget-ok (load x env v m url).result (rw (n, warm) at h) in
        rw (n, warm) (load-IsCached m url chain d valid alone q)

    load-contacts_none :
        (m : Moment x) (url : Key) → IsCached url m.cache → (load x env v m url).contacted ≡ []
    unfolding load load_certificate_chain
    load-contacts_none m url (found, g) =
        rw (g, load, load_certificate_chain)
          (hit_contacts x v.roots m.later url (now env.time_now v m.second) found)

    verify-contacts_none :
        (m : Moment x) (body : List ℕ) (hdr : Header) (url : List ℕ)
        → normalize_cert_chain_url env.parse_url (header_get hdr cert_chain_url_header) ≡ ok url
        → IsCached url m.cache
        → (verify x env v m body hdr).contacted ≡ []
    unfolding verify verify_fresh verify_signature
    verify-contacts_none m body hdr url n cached =
        elim (Bool-cases (is_empty (header_get hdr signature_header))) [
          | inl e ↦ rw (e, verify)
          | inr e ↦ elim (Bool-cases (is_empty (header_get hdr cert_chain_url_header))) [
            | inl e' ↦ rw (e, verify, e')
            | inr e' ↦
                elim (Result-cases (
                  verify_timestamp env.unmarshal env.parse_time body (now env.time_now v m.first)
                    (effective_tolerance v))) [
                      | inr (cause, t) ↦ rw (e, verify, e', t, verify_fresh)
                      | inl (u, t) ↦
                          rw (e, verify, e', t, verify_fresh, n, verify_signature)
                            (load-contacts_none m url cached)
                    ]
          ]
        ]

    -- After a warm-up that logs success, and that no other call overlapped, a request whose
    -- certificate-chain URL has the same canonical form is verified without any contact, as long as
    -- it meets the cache that the warm-up left. The cache of the warm-up must be well formed.
    pub warm_spares :
        (m n : Moment x) (seed logged url body : List ℕ) (hdr : Header)
        → normalize_cert_chain_url env.parse_url seed ≡ ok url
        → normalize_cert_chain_url env.parse_url (header_get hdr cert_chain_url_header) ≡ ok url
        → Permᴰ m.visited m.later.entries
        → IsValid m.later
        → m.cache ≡ m.later
        → (start_certificate_cache_warm x env v m seed).1 ≡ some (did_warm logged)
        → n.cache ≡ (start_certificate_cache_warm x env v m seed).0.cache
        → (verify x env v n body hdr).contacted ≡ []
    unfolding start_certificate_cache_warm
    warm_spares m n seed logged url body hdr s r d valid alone line met =
        verify-contacts_none n body hdr url r (
          subst (IsCached url) (sym met)
            (warm-IsCached m seed url s d valid alone (warm_line-did_warm seed logged _ line)))
