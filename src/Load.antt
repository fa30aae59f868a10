-- ===== src/Load.antt =====
-- `loadCertificateChain` and `validateCachedLeafTime` of pkg/alexaverify/cache.go.
--
-- Between the look-up and the later change of the cache other requests may run: what the cache has
-- become then is an argument. A parsed chain is allocated at a given address.
pub mod Trust
pub mod Outcome
mod Examples
use billy.Base.{ℕ, List, [], ◌∷◌, ◌++◌, Bool, if◌then◌else◌, Option, none, some}
use billy.Base.Int.{ℤ, ltb_ℤ}
use billy.Cache.{Key, Pointer, CacheEntry, CertCache, get, put, remove}
use billy.Chain.{ParsedChain, parse_pem_chain, validate_chain, verify_certificate_hostname}
use billy.Crypto.{Crypto}
use billy.Errors.{Result, ok, err, ◌>>=◌, Error, errorf, untrusted_chain}
use billy.Fetch.{Network, HttpClient, fetch_certificate_chain}

-- The whole outcome of a load: the cache after it, the URLs contacted, and the chain or an error.
-- `none` in the result means that the fuel of `parse_pem_chain` ran out.
pub record Loaded (x : Crypto) : Type 0 where
  pub cache : CertCache (ParsedChain x)
  pub contacted : List (List ℕ)
  pub result : Option (Result Error (ParsedChain x))

module _ (x : Crypto) where
  unfoldable pub validate_cached_leaf_time : ParsedChain x → ℤ → Result Error (Unit {0})
  validate_cached_leaf_time chain now =
      if ltb_ℤ now (x.not_before chain.leaf)
      then err (errorf untrusted_chain)
      else if ltb_ℤ (x.not_after chain.leaf) now
      then err (errorf untrusted_chain)
      else ok tt

  -- The two checks that a parsed chain passes before it is cached.
  unfoldable pub check_chain : Option x.CertPool → ℤ → ParsedChain x → Result Error (ParsedChain x)
  check_chain roots now chain = validate_chain x roots chain now >>= λ _.
      verify_certificate_hostname x chain.leaf >>= λ _. ok chain

  -- A hit: the times are checked again, and a chain outside them is removed.
  unfoldable pub load_hit : CertCache (ParsedChain x) → Key → ℤ → Pointer (ParsedChain x) → Loaded x
  load_hit later url now found = elim (validate_cached_leaf_time found.target now) [
    | ok _ ↦ record { cache = later; contacted = []; result = some (ok found.target) }
    | err e ↦ record { cache = remove later url found; contacted = []; result = some (err e) }
  ]

  -- What a checked chain or a failure does to the cache.
  unfoldable pub settle :
      List (Key × CacheEntry (ParsedChain x))
      → CertCache (ParsedChain x)
      → Key
      → ℕ
      → List (List ℕ)
      → Option (Result Error (ParsedChain x))
      → Loaded x
  settle visited later url address contacted none = record {
    cache = later;
    contacted = contacted;
    result = none;
  }
  settle visited later url address contacted (some (err e)) = record {
    cache = later;
    contacted = contacted;
    result = some (err e);
  }
  settle visited later url address contacted (some (ok chain)) = record {
    cache = put visited later url (record { address = address; target = chain });
    contacted = contacted;
    result = some (ok chain);
  }

  -- The chain that a fetched bundle yields, checked.
  unfoldable pub checked_bundle :
      Option x.CertPool → ℤ → Result Error (List ℕ) → Option (Result Error (ParsedChain x))
  checked_bundle roots now (err e) = some (err e)
  checked_bundle roots now (ok bundle) = elim (parse_pem_chain x bundle) [
    | none ↦ none
    | some parsed ↦ some (parsed >>= check_chain roots now)
  ]

  module _ (net : Network) (client : Option HttpClient) (roots : Option x.CertPool) where
    unfoldable pub load_certificate_chain :
        CertCache (ParsedChain x)
        → CertCache (ParsedChain x)
        → List (Key × CacheEntry (ParsedChain x))
        → ℕ
        → Key
        → ℤ
        → Loaded x
    load_certificate_chain cache later visited address url now = elim (get cache url) [
      | some found ↦ load_hit later url now found
      | none ↦
          let fetched = fetch_certificate_chain net client url in
          settle visited later url address fetched.0 (checked_bundle roots now fetched.1)
    ]
