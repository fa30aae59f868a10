-- ===== src/Url/Accept.antt =====
-- Which chain URLs are accepted, what they become, and which sentinel a refusal wraps.
use billy.Base.{
  ℕ, bytes_eq, bytes_eq_iff, has_prefix, Bool, true, false, ◌||◌, List, [], ◌∷◌, is_empty, ◌≡◌, ◌↔◌,
  ◌⊎◌, inl, inr, arith, Bool-cases, ap, refl, sym, ◌∙◌,
}
use billy.Errors.{
  Sentinel, Result, ok, err, Error, errorf, cert_url_invalid, cert_url_userinfo, cert_url_traversal,
}
use billy.Url.Clean.{clean_rooted}
use billy.Url.Host.{equal_fold}
use billy.Url.Normalize.{
  Url, hostname, port, valid_cert_scheme, valid_cert_host, valid_cert_port, valid_cert_path_prefix,
  url_string, canonical_url, cleaned_path, has_dot_dot, cert_path_error, normalize_path,
  normalize_parsed, validate_cert_chain_host_port,
}
use billy.Url.Cleaned.{segments, cleaned_path-segments}
use billy.Url.Under.{IsUnder, has_prefix_iff}

-- The port is absent, or it is 443.
abbrev pub PortFits : Url → Type 0
PortFits u = (port u ≡ []) ⊎ (port u ≡ valid_cert_port)

-- The scheme, the userinfo, the host and the port pass.
pub record Addressed (u : Url) : Type 0 where
  pub scheme : equal_fold u.scheme valid_cert_scheme ≡ true
  pub user : u.user ≡ false
  pub host : equal_fold (hostname u) valid_cert_host ≡ true
  pub port : PortFits u

abbrev pub port_test : Url → Bool
port_test u = is_empty (port u) || bytes_eq (port u) valid_cert_port

is_empty_iff : (s : List ℕ) → (is_empty s ≡ true) ↔ (s ≡ [])
is_empty_iff [] = (λ _. refl, λ _. refl)
is_empty_iff (c ∷ s) = (λ e. cc, λ e. cc)

port_iff : (u : Url) → (port_test u ≡ true) ↔ PortFits u
port_iff u = grind (arith, is_empty_iff (port u), bytes_eq_iff (port u) valid_cert_port)

normalize-Addressed : (u : Url) → Addressed u → normalize_parsed u ≡ normalize_path u
unfolding normalize_parsed validate_cert_chain_host_port
normalize-Addressed u a =
    let p : port_test u ≡ true = (port_iff u).1 a.port in simp (a.scheme, a.user, a.host, p)

-- Why a URL is refused.
pub data Refused (u : Url) : Sentinel → Type 0 where
  by_scheme : equal_fold u.scheme valid_cert_scheme ≡ false → Refused u cert_url_invalid
  by_userinfo :
      equal_fold u.scheme valid_cert_scheme ≡ true → u.user ≡ true → Refused u cert_url_userinfo
  by_host :
      u.user ≡ false → equal_fold (hostname u) valid_cert_host ≡ false → Refused u cert_url_invalid
  by_port : u.user ≡ false → ¬ PortFits u → Refused u cert_url_invalid
  by_traversal :
      Addressed u
      → ¬ IsUnder (segments u.path)
      → has_dot_dot u.path ≡ true
      → Refused u cert_url_traversal
  by_path :
      Addressed u
      → ¬ IsUnder (segments u.path)
      → has_dot_dot u.path ≡ false
      → Refused u cert_url_invalid

-- What `normalizeCertChainURL` builds from an accepted URL.
unfoldable pub canonical_form : Url → List ℕ
canonical_form u = url_string (canonical_url (clean_rooted (segments u.path)) u.raw_query)

-- The outcome of a parsed URL, by one of these two reasons.
data Outcome (u : Url) : Result Error (List ℕ) → Type 0 where
  accepted : Addressed u → IsUnder (segments u.path) → Outcome u (ok (canonical_form u))
  refused : (s : Sentinel) → Refused u s → Outcome u (err (errorf s))

path-Outcome : (u : Url) → Addressed u → Outcome u (normalize_path u)
unfolding normalize_path cert_path_error
path-Outcome u a = elim (Bool-cases (has_prefix (cleaned_path u.path) valid_cert_path_prefix)) [
  | inl e ↦
      rw (e, cleaned_path-segments u.path)
        (unfold canonical_form in Outcome.accepted a ((has_prefix_iff u.path).0 e))
  | inr e ↦
      let outside : ¬ IsUnder (segments u.path) = λ under. cc ((has_prefix_iff u.path).1 under) in
      rw e (elim (Bool-cases (has_dot_dot u.path)) [
        | inl d ↦ rw d (Outcome.refused cert_url_traversal (Refused.by_traversal a outside d))
        | inr d ↦ rw d (Outcome.refused cert_url_invalid (Refused.by_path a outside d))
      ])
]

outcome : (u : Url) → Outcome u (normalize_parsed u)
unfolding normalize_parsed validate_cert_chain_host_port
outcome u = elim (Bool-cases (equal_fold u.scheme valid_cert_scheme)) [
  | inr s ↦ simp s (Outcome.refused cert_url_invalid (Refused.by_scheme s))
  | inl s ↦ elim (Bool-cases u.user) [
    | inl w ↦ simp (s, w) (Outcome.refused cert_url_userinfo (Refused.by_userinfo s w))
    | inr w ↦ elim (Bool-cases (equal_fold (hostname u) valid_cert_host)) [
      | inr h ↦ simp (s, w, h) (Outcome.refused cert_url_invalid (Refused.by_host w h))
      | inl h ↦ elim (Bool-cases (port_test u)) [
        | inr p ↦
            let bad : ¬ PortFits u = λ fits. cc ((port_iff u).1 fits) in
            simp (s, w, h, p) (Outcome.refused cert_url_invalid (Refused.by_port w bad))
        | inl p ↦
            let a : Addressed u = record {
              scheme = s;
              user = w;
              host = h;
              port = (port_iff u).0 p;
            } in
            rw (← normalize-Addressed u a) at (path-Outcome u a)
      ]
    ]
  ]
]

ok_of_Outcome :
    (u : Url) (r : Result Error (List ℕ))
    → Outcome u r
    → (c : List ℕ) → r ≡ ok c
    → Addressed u × IsUnder (segments u.path) × (c ≡ canonical_form u)
ok_of_Outcome u r (Outcome.accepted a under) c e = (a, under, cc)
ok_of_Outcome u r (Outcome.refused s why) c e = cc

err_of_Outcome :
    (u : Url) (r : Result Error (List ℕ))
    → Outcome u r
    → (e : Error) → r ≡ err e
    → (s : Sentinel) × (e ≡ errorf s) × Refused u s
err_of_Outcome u r (Outcome.accepted a under) e h = cc
err_of_Outcome u r (Outcome.refused s why) e h = (s, cc, why)

accepted_path :
    (u : Url) → Addressed u → IsUnder (segments u.path) → normalize_path u ≡ ok (canonical_form u)
unfolding normalize_path canonical_form
accepted_path u a under = rw ((has_prefix_iff u.path).1 under, cleaned_path-segments u.path)

-- A parsed URL is accepted exactly when the scheme is `https` and the host is `s3.amazonaws.com`, in
-- any case, there is no userinfo, the port is absent or 443, and the cleaned path has `echo.api` as
-- its first element and at least one element below it. What is then fetched is the URL rebuilt from
-- the literal scheme and host, the elements of the cleaned path and the query.
pub normalize_parsed-eq-ok_iff :
    (u : Url) (c : List ℕ)
    → (normalize_parsed u ≡ ok c)
      ↔ (Addressed u × IsUnder (segments u.path) × (c ≡ canonical_form u))
normalize_parsed-eq-ok_iff u c = (
  ok_of_Outcome u (normalize_parsed u) (outcome u) c,
  λ h. normalize-Addressed u h.0 ∙ (accepted_path u h.0 h.1 ∙ ap ok (sym h.2)),
)

-- A refusal of a parsed URL wraps one sentinel, for the reason that goes with it: userinfo only where
-- the scheme passed and there is userinfo; traversal only where the scheme, the userinfo, the host and
-- the port passed, the cleaned path is not under `echo.api`, and a `..` stands between the slashes
-- of the decoded path; invalid in the other cases.
pub normalize_parsed-eq-err :
    (u : Url) (e : Error)
    → normalize_parsed u ≡ err e
    → (s : Sentinel) × (e ≡ errorf s) × Refused u s
normalize_parsed-eq-err u e = err_of_Outcome u (normalize_parsed u) (outcome u) e
