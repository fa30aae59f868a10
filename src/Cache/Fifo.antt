-- ===== src/Cache/Fifo.antt =====
-- What the cache promises: a bounded first-in-first-out queue of keys with their chains.
use billy.Base.{Bool, ◌==◌, bytes_eq, List, [], ◌∷◌, ◌++◌, length, any, if◌then◌else◌, map, ◌&&◌}
use billy.Cache.{Key, Pointer, CertCache, max_certificate_cache_entries}

abbrev pub tail {ℓ} : {B : Type ℓ} → List B → List B
tail [] = []
tail (x ∷ xs) = xs

-- Without the first element, if the list is full.
abbrev pub drop_front {ℓ} : {B : Type ℓ} → List B → List B
drop_front m = if length m == max_certificate_cache_entries then tail m else m

abbrev pub Queue : Type 0 → Type 0
Queue A = List (Key × Pointer A)

module _ {A : Type 0} where
  -- What the cache holds, oldest key first.
  unfoldable pub view : CertCache A → Queue A
  view c = map (λ x. (x.0, x.1.chain)) c.entries

  unfoldable pub holds : Key → Queue A → Bool
  holds key q = any (λ x. bytes_eq x.0 key) q

  unfoldable pub exchange : Key → Pointer A → Queue A → Queue A
  exchange key chain [] = []
  exchange key chain ((k, p) ∷ q) =
      if bytes_eq k key then (k, chain) ∷ q else (k, p) ∷ exchange key chain q

  -- A known key keeps its place; a new key goes to the end, and the oldest makes room for it.
  unfoldable pub enqueue : Key → Pointer A → Queue A → Queue A
  enqueue key chain q =
      if holds key q then exchange key chain q else drop_front q ++ (key, chain) ∷ []

  -- Takes the key away if it has the chain at this address.
  unfoldable pub withdraw : Key → Pointer A → Queue A → Queue A
  withdraw key chain [] = []
  withdraw key chain ((k, p) ∷ q) =
      if bytes_eq k key && (p.address == chain.address) then q else (k, p) ∷ withdraw key chain q
