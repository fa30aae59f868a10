-- ===== src/Warm.antt =====
-- warm.go: `startCertificateCacheWarm`.
--
-- The goroutine runs beside the requests: its one call of `Warm` meets the cache at the two moments of
-- `Moment`, and History.antt interleaves it with the requests. Nothing waits for the channel that it
-- closes.
pub mod Seeded
mod Examples
use billy.Base.{ℕ, List, Option, none, some}
use billy.Crypto.{Crypto}
use billy.Errors.{Result, ok, err, Error}
use billy.Fetch.{HttpClient}
use billy.Verifier.{Verifier}
use billy.Verify.{Services, Moment, Verified, warm}

-- What is logged, with the URL of the chain.
pub data WarmLine : Type 0 where
  not_warmed : Error → List ℕ → WarmLine
  did_warm : List ℕ → WarmLine

-- none: the fuel of the load ran out.
unfoldable pub warm_line : List ℕ → Option (Result Error (Unit {0})) → Option WarmLine
warm_line seed_url none = none
warm_line seed_url (some (err e)) = some (not_warmed e seed_url)
warm_line seed_url (some (ok _)) = some (did_warm seed_url)

module _ (x : Crypto) {Logger : Type 0} (env : Services)
    (v : Verifier x.CertPool HttpClient Logger) where
  unfoldable pub start_certificate_cache_warm : Moment x → List ℕ → Verified x × Option WarmLine
  start_certificate_cache_warm m seed_url =
      let warmed = warm x env v m seed_url in (warmed, warm_line seed_url warmed.result)
