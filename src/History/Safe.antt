-- ===== src/History/Safe.antt =====
-- What holds of the cache in every history, and of a request that is accepted in one.
use mathlib.Core.Path.{subst}
use billy.Base.{ℕ, ◌+◌, ◌^◌, ◌≤◌, ◌<◌, List, [], ◌∷◌, length, ◌≡◌, sym, arith, All, some, inl, inr}
use billy.Cache.Invariant.{IsValid, new_cert_cache-IsValid}
use billy.Crypto.{Crypto}
use billy.Errors.{ok, Result-cases}
use billy.Fetch.{HttpClient}
use billy.History.{Occurs, Cache, Meets, History}
use billy.History.Changes.{Changes, Changes-IsValid, verify-Changes, warm-Changes}
use billy.Load.Trust.{AllTrusted}
use billy.Url.Normalize.{normalize_cert_chain_url}
use billy.Verifier.{Verifier}
use billy.Verify.{Services, Moment, Header, verify, warm}
use billy.Verify.Sound.{load-IsSound, verify-AllTrusted, IsAuthentic, verify-IsAuthentic}

All-Occurs {ℓ κ} : {A : Type ℓ} (P : A → Type κ) (a : A) (s : List A) → Occurs a s → All P s → P a
All-Occurs P a _ (Occurs.here s) h = h.0
All-Occurs P a _ (Occurs.there b s o) h = All-Occurs P a s o h.1

module _ (x : Crypto) {Logger : Type 0} (v : Verifier x.CertPool HttpClient Logger) where
  warm-AllTrusted :
      (env : Services) (m : Moment x) (seed_url : List ℕ)
      → AllTrusted x v.roots m.cache
      → AllTrusted x v.roots m.later
      → AllTrusted x v.roots (warm x env v m seed_url).cache
  unfolding warm
  warm-AllTrusted env m seed_url before after =
      elim (Result-cases (normalize_cert_chain_url env.parse_url seed_url)) [
        | inr (cause, n) ↦ rw (n, warm) after
        | inl (url, n) ↦ rw (n, warm) (load-IsSound x env v m url before after).cached
      ]

  Meets-before :
      (m : Moment x) (present : Cache x v) (past : List (Cache x v))
      → Meets x v m present past
      → All (AllTrusted x v.roots) (present ∷ past)
      → AllTrusted x v.roots m.cache
  Meets-before m present past meets h =
      All-Occurs (AllTrusted x v.roots) m.cache (present ∷ past) meets.looked h

  Meets-after :
      (m : Moment x) (present : Cache x v) (past : List (Cache x v))
      → Meets x v m present past
      → All (AllTrusted x v.roots) (present ∷ past)
      → AllTrusted x v.roots m.later
  Meets-after m present past meets h = subst (AllTrusted x v.roots) (sym meets.changed) h.0

  -- However the calls of `Verify` and `Warm` interleave, every chain that is ever in the cache has been
  -- validated against the verifier's roots and is issued for the Alexa API domain.
  pub History-AllTrusted :
      (states : List (Cache x v)) → History x v states → All (AllTrusted x v.roots) states
  History-AllTrusted _ History.start = (tt, tt)
  History-AllTrusted _ (History.verified present past env m body hdr history meets) =
      let h = History-AllTrusted (present ∷ past) history in
      (
        verify-AllTrusted x env v m body hdr (Meets-before m present past meets h)
            (Meets-after m present past meets h),
        h,
      )
  History-AllTrusted _ (History.warmed present past env m seed_url history meets) =
      let h = History-AllTrusted (present ∷ past) history in
      (
        warm-AllTrusted env m seed_url (Meets-before m present past meets h)
            (Meets-after m present past meets h),
        h,
      )

  -- Valid, with a counter below the number of states.
  abbrev IsBelow : ℕ → Cache x v → Type 0
  IsBelow n c = IsValid c × (c.next + 1 ≤ n)

  after_call :
      (m : Moment x) (present c : Cache x v) (past : List (Cache x v))
      → Meets x v m present past
      → Changes m.visited m.later c
      → length (present ∷ past) + 1 < 2 ^ 64
      → IsBelow (length (present ∷ past)) present
      → IsBelow (length (present ∷ past) + 1) c
  after_call m present c past meets change small (valid, below) =
      let later_valid : IsValid m.later = subst IsValid (sym meets.changed) valid in
      let later_below : m.later.next + 1 ≤ length (present ∷ past) =
        subst (λ (k : Cache x v). k.next + 1 ≤ length (present ∷ past)) (sym meets.changed) below in
      let (kept, next) =
        Changes-IsValid m.visited m.later c change meets.order (omega arith) later_valid in
      (kept, omega arith)

  abbrev AllBelow : List (Cache x v) → Type 0
  AllBelow [] = Unit
  AllBelow (c ∷ states) = IsBelow (length (c ∷ states)) c × AllBelow states

  History-AllBelow :
      (states : List (Cache x v)) → History x v states → length states < 2 ^ 64 → AllBelow states
  History-AllBelow _ History.start small = ((new_cert_cache-IsValid, omega arith), tt)
  History-AllBelow _ (History.verified present past env m body hdr history meets) small =
      let h = History-AllBelow (present ∷ past) history (omega arith) in
      let (valid, below) =
        after_call m present (verify x env v m body hdr).cache past meets
          (verify-Changes x env v m body hdr) (omega arith) h.0 in
      ((valid, omega arith), h)
  History-AllBelow _ (History.warmed present past env m seed_url history meets) small =
      let h = History-AllBelow (present ∷ past) history (omega arith) in
      let (valid, below) =
        after_call m present (warm x env v m seed_url).cache past meets
          (warm-Changes x env v m seed_url) (omega arith) h.0 in
      ((valid, omega arith), h)

  IsValid-of_below : (states : List (Cache x v)) → AllBelow states → All IsValid states
  IsValid-of_below [] h = tt
  IsValid-of_below (c ∷ states) (h, rest) = (h.0, IsValid-of_below states rest)

  -- However the calls interleave, fewer than 2 ^ 64 - 1 of them leave the cache valid at every moment:
  -- at most five keys, none of them twice, in the order in which they came.
  pub History-IsValid :
      (states : List (Cache x v)) → History x v states → length states < 2 ^ 64 → All IsValid states
  History-IsValid states history small =
      IsValid-of_below states (History-AllBelow states history small)

  -- In every history, a request that `Verify` accepts is authentic: that the cache is trusted needs no
  -- condition, whatever the calls before it and beside it were.
  pub History-IsAuthentic :
      (present : Cache x v) (past : List (Cache x v)) (env : Services) (m : Moment x)
      (body : List ℕ) (hdr : Header)
      → History x v (present ∷ past)
      → Meets x v m present past
      → (verify x env v m body hdr).result ≡ some (ok tt)
      → IsAuthentic x env v m body hdr
  History-IsAuthentic present past env m body hdr history meets h =
      let trusted = History-AllTrusted (present ∷ past) history in
      verify-IsAuthentic x env v m body hdr (Meets-before m present past meets trusted)
        (Meets-after m present past meets trusted) h
