-- ===== src/Errors.antt =====
-- pkg/alexaverify/errors.go: the sentinels, and what `errors.Is` can reach in an error.
--
-- An error is the list of the errors that it wraps. `fmt.Errorf` with `%w` adds one to the list,
-- and with `%v` it only prints. What a library returns is opaque, so it is never a sentinel.
use billy.Base.{ℕ, List, [], ◌∷◌, ◌≡◌, refl, ◌⊎◌, inl, inr}

pub data Sentinel : Type 0 where
  missing_header cert_url_invalid cert_url_userinfo cert_url_traversal cert_fetch : Sentinel
  untrusted_chain cert_hostname unsupported_key bad_signature stale_timestamp : Sentinel

-- An error of a library, by an identity.
abbrev pub Foreign : Type 0
Foreign = ℕ

pub data Wrapped : Type 0 where
  sentinel : Sentinel → Wrapped
  foreign : Foreign → Wrapped

abbrev pub Error : Type 0
Error = List Wrapped

pub data Result {ℓ} (E : Type 0) (A : Type ℓ) : Type ℓ where
  ok : A → Result E A
  err : E → Result E A

infixl 5 ◌>>=◌
abbrev pub ◌>>=◌ {ℓ κ} :
    {E : Type 0} {A : Type ℓ} {B : Type κ} → Result E A → (A → Result E B) → Result E B
ok a >>= f = f a
err e >>= f = err e

-- A number for each sentinel: Go compares them by identity.
abbrev pub identity : Sentinel → ℕ
identity missing_header = 0
identity cert_url_invalid = 1
identity cert_url_userinfo = 2
identity cert_url_traversal = 3
identity cert_fetch = 4
identity untrusted_chain = 5
identity cert_hostname = 6
identity unsupported_key = 7
identity bad_signature = 8
identity stale_timestamp = 9

-- `fmt.Errorf("%w: …", s)`
abbrev pub errorf : Sentinel → Error
errorf s = sentinel s ∷ []

-- `fmt.Errorf("%w: …: %w", s, cause)`
abbrev pub errorf_both : Sentinel → Foreign → Error
errorf_both s cause = sentinel s ∷ foreign cause ∷ []

-- The sentinels among the errors that one wraps.
abbrev pub sentinels : Error → List Sentinel
sentinels [] = []
sentinels (sentinel s ∷ e) = s ∷ sentinels e
sentinels (foreign n ∷ e) = sentinels e

-- It wraps exactly one sentinel.
abbrev pub WrapsOne : Sentinel → Error → Type 0
WrapsOne s e = sentinels e ≡ s ∷ []

pub Result-cases {ℓ} :
    {E : Type 0} {A : Type ℓ} (r : Result E A) → ((a : A) × (r ≡ ok a)) ⊎ ((e : E) × (r ≡ err e))
Result-cases (ok a) = inl (a, refl)
Result-cases (err e) = inr (e, refl)
