-- ===== src/Cache.antt =====
-- `certCache` of pkg/alexaverify/cache.go: `newCertCache`, `get`, `put` and `remove`.
--
-- The map is a list of its entries, each key once. A stored chain is a pointer: an address, by which
-- Go compares pointers, and what it points to, which nothing changes. The methods lock one mutex,
-- so each is one step.
pub mod Entries
pub mod Fifo
pub mod Invariant
pub mod Oldest
pub mod Keeps
pub mod Refines
mod Examples
use billy.Base.{
  ℕ, ◌+◌, ◌%◌, ◌^◌, ◌==◌, ltb, bytes_eq, List, [], ◌∷◌, ◌++◌, length, Bool, true, false, ◌||◌,
  if◌then◌else◌, Option, none, some,
}

-- constants.go
abbrev pub max_certificate_cache_entries : ℕ
max_certificate_cache_entries = 5

abbrev pub Key : Type 0
Key = List ℕ

pub record Pointer (A : Type 0) : Type 0 where
  pub address : ℕ
  pub target : A

pub record CacheEntry (A : Type 0) : Type 0 where
  pub chain : Pointer A
  pub order : ℕ

pub record CertCache (A : Type 0) : Type 0 where
  pub entries : List (Key × CacheEntry A)
  pub next : ℕ

module _ {A : Type 0} where
  abbrev pub new_cert_cache : CertCache A
  new_cert_cache = record { entries = []; next = 0 }

  -- `c.entries[key]`
  unfoldable pub lookup : Key → List (Key × CacheEntry A) → Option (CacheEntry A)
  lookup key [] = none
  lookup key ((k, e) ∷ m) = if bytes_eq k key then some e else lookup key m

  -- `c.entries[key] = entry` for a key that is there
  unfoldable pub replace :
      Key → CacheEntry A → List (Key × CacheEntry A) → List (Key × CacheEntry A)
  replace key entry [] = []
  replace key entry ((k, e) ∷ m) =
      if bytes_eq k key then (k, entry) ∷ m else (k, e) ∷ replace key entry m

  -- `delete(c.entries, key)`
  unfoldable pub delete : Key → List (Key × CacheEntry A) → List (Key × CacheEntry A)
  delete key [] = []
  delete key ((k, e) ∷ m) = if bytes_eq k key then m else (k, e) ∷ delete key m

  unfoldable pub get : CertCache A → Key → Option (Pointer A)
  get c key = elim (lookup key c.entries) [ some e ↦ some e.chain | none ↦ none ]

  -- The loop that looks for the oldest entry, over the entries in the order in which Go's runtime
  -- visits them.
  unfoldable pub oldest_from : Bool → Key → ℕ → List (Key × CacheEntry A) → Key
  oldest_from first oldest_key oldest_order [] = oldest_key
  oldest_from first oldest_key oldest_order ((k, e) ∷ m) =
      let found = first || ltb e.order oldest_order in
      oldest_from (if found then false else first) (if found then k else oldest_key)
        (if found then e.order else oldest_order) m

  unfoldable pub oldest : List (Key × CacheEntry A) → Key
  oldest visited = oldest_from true [] 0 visited

  -- The entries that stay when a new key comes, given the order of the visits.
  unfoldable pub make_room : List (Key × CacheEntry A) → CertCache A → List (Key × CacheEntry A)
  make_room visited c =
      if length c.entries == max_certificate_cache_entries
      then delete (oldest visited) c.entries
      else c.entries

  unfoldable pub put : List (Key × CacheEntry A) → CertCache A → Key → Pointer A → CertCache A
  put visited c key chain = elim (lookup key c.entries) [
    | some entry ↦ record c {
      entries = replace key (record { chain = chain; order = entry.order }) c.entries;
    }
    | none ↦ record {
      entries = make_room visited c ++ (key, record { chain = chain; order = c.next }) ∷ [];
      next = (c.next + 1) % 2 ^ 64;
    }
  ]

  unfoldable pub remove : CertCache A → Key → Pointer A → CertCache A
  remove c key chain = elim (lookup key c.entries) [
    | some entry ↦
        if entry.chain.address == chain.address
        then record c { entries = delete key c.entries }
        else c
    | none ↦ c
  ]
