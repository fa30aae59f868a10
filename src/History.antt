-- ===== src/History.antt =====
-- The one cache of a verifier under all the calls of `Verify` and `Warm` that share it.
--
-- Requests and the warm-up run at the same time, and the methods of the cache lock one mutex. So a
-- call looks the cache up at one moment and changes it at a later one, and in between any other calls
-- may have changed it. A history is the list of the states that the cache has had, newest first: a
-- call meets any of them at its look-up, and the newest at its change.
pub mod Changes
pub mod Safe
mod Examples
use mathlib.Core.List.{Permᴰ}
use billy.Base.{ℕ, List, [], ◌∷◌, ◌≡◌}
use billy.Cache.{CertCache, new_cert_cache}
use billy.Chain.{ParsedChain}
use billy.Crypto.{Crypto}
use billy.Fetch.{HttpClient}
use billy.Verifier.{Verifier}
use billy.Verify.{Services, Moment, Header, verify, warm}

-- The value stands in the list.
pub data Occurs {ℓ} {A : Type ℓ} (a : A) : List A → Type ℓ where
  here : (s : List A) → Occurs a (a ∷ s)
  there : (b : A) (s : List A) → Occurs a s → Occurs a (b ∷ s)

module _ (x : Crypto) {Logger : Type 0} (v : Verifier x.CertPool HttpClient Logger) where
  abbrev pub Cache : Type 0
  Cache = CertCache (ParsedChain x)

  -- What a call meets: an earlier or the present state at its look-up, the present state at its change,
  -- and the entries of the map in the order in which Go's runtime visits them.
  pub record Meets (m : Moment x) (present : Cache) (past : List Cache) : Type 0 where
    pub looked : Occurs m.cache (present ∷ past)
    pub changed : m.later ≡ present
    pub order : Permᴰ m.visited m.later.entries

  pub data History : List Cache → Type 0 where
    start : History (new_cert_cache ∷ [])
    verified :
        (present : Cache) (past : List Cache) (env : Services) (m : Moment x) (body : List ℕ)
        (hdr : Header)
        → History (present ∷ past)
        → Meets m present past
        → History ((verify x env v m body hdr).cache ∷ present ∷ past)
    warmed :
        (present : Cache) (past : List Cache) (env : Services) (m : Moment x) (seed_url : List ℕ)
        → History (present ∷ past)
        → Meets m present past
        → History ((warm x env v m seed_url).cache ∷ present ∷ past)
