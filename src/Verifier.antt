-- ===== src/Verifier.antt =====
-- The configuration of pkg/alexaverify/verify.go: `Verifier`, `New`, its options, `now`, `tolerance`.
--
-- The pool of roots, the HTTP client and the logger are values of opaque types. The clock is read at
-- numbered moments; `time.Now` is the argument `time_now`. The cache is modelled in Cache.antt.
pub mod Bounds
mod Examples
use billy.Base.{ℕ, ◌*◌, List, [], ◌∷◌, if◌then◌else◌, Option, none, some}
use billy.Base.Int.{ℤ, pos, ltb_ℤ, leb_ℤ}
use billy.Errors.{Result, ok, err, ◌>>=◌, Foreign}
use billy.Timestamp.{second}

-- constants.go
abbrev pub default_tolerance : ℤ
default_tolerance = pos (150 * second)

abbrev pub max_tolerance : ℤ
max_tolerance = pos (150 * second)

-- A warning of `New`, with the tolerance that was requested.
pub data LogLine : Type 0 where
  clamping : ℤ → LogLine

-- The identity of an error that `New` makes itself, for a negative tolerance.
abbrev pub negative_tolerance : Foreign
negative_tolerance = 0

pub record Verifier (Pool Client Logger : Type 0) : Type 0 where
  pub roots : Option Pool
  pub clock : Option (ℕ → ℤ)
  pub http_client : Option Client
  pub tolerance : ℤ
  pub log : Option Logger

-- An `Option` may be nil.
abbrev pub Setting : Type 0 → Type 0 → Type 0 → Type 0
Setting Pool Client Logger =
    Option (Verifier Pool Client Logger → Result Foreign (Verifier Pool Client Logger))

module _ {Pool Client Logger : Type 0} where
  abbrev pub with_roots : Option Pool → Setting Pool Client Logger
  with_roots roots = some (λ v. ok (record v { roots = roots }))

  abbrev pub with_clock : Option (ℕ → ℤ) → Setting Pool Client Logger
  with_clock now = some (λ v. ok (record v { clock = now }))

  abbrev pub with_http_client : Option Client → Setting Pool Client Logger
  with_http_client client = some (λ v. ok (record v { http_client = client }))

  abbrev pub with_tolerance : ℤ → Setting Pool Client Logger
  with_tolerance d = some (λ v. ok (record v { tolerance = d }))

  abbrev pub with_logger : Option Logger → Setting Pool Client Logger
  with_logger log = some (λ v. ok (record v { log = log }))

  -- The loop of `New` over its options.
  unfoldable pub apply_settings :
      List (Setting Pool Client Logger)
      → Verifier Pool Client Logger
      → Result Foreign (Verifier Pool Client Logger)
  apply_settings [] v = ok v
  apply_settings (none ∷ opts) v = apply_settings opts v
  apply_settings (some opt ∷ opts) v = opt v >>= λ v'. apply_settings opts v'

  abbrev pub initial : Verifier Pool Client Logger
  initial = record {
    roots = none;
    clock = none;
    http_client = none;
    tolerance = default_tolerance;
    log = none;
  }

  abbrev pub with_default_log : Logger → Verifier Pool Client Logger → Verifier Pool Client Logger
  with_default_log default v = elim v.log [ none ↦ record v { log = some default } | some l ↦ v ]

  -- What `New` does after its options: the default logger, the sign check and the clamp, with what
  -- it logs.
  unfoldable pub finish :
      Logger
      → Verifier Pool Client Logger
      → Result Foreign (Verifier Pool Client Logger × List LogLine)
  finish default v =
      let v' = with_default_log default v in
      if ltb_ℤ v'.tolerance (pos 0)
      then err negative_tolerance
      else if ltb_ℤ max_tolerance v'.tolerance
      then ok (record v' { tolerance = max_tolerance }, clamping v'.tolerance ∷ [])
      else ok (v', [])

  unfoldable pub new :
      Logger
      → List (Setting Pool Client Logger)
      → Result Foreign (Verifier Pool Client Logger × List LogLine)
  new default opts = apply_settings opts initial >>= finish default

  -- `Verifier.now`, at a moment.
  unfoldable pub now : (ℕ → ℤ) → Verifier Pool Client Logger → ℕ → ℤ
  now time_now v moment = elim v.clock [ some read ↦ read moment | none ↦ time_now moment ]

  -- `Verifier.tolerance`
  unfoldable pub effective_tolerance : Verifier Pool Client Logger → ℤ
  effective_tolerance v =
      if leb_ℤ v.tolerance (pos 0)
      then default_tolerance
      else if ltb_ℤ max_tolerance v.tolerance
      then max_tolerance
      else v.tolerance
