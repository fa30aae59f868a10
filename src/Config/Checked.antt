-- ===== src/Config/Checked.antt =====
-- What a loaded configuration is known for, and what its log entry hides.
use billy.Base.{
  ◌++◌, ◌==◌, ==_iff, ◌⊎◌, ap, All, and-eq-true, ℕ, ◌≤◌, ◌<◌, List, [], ◌∷◌, length, is_empty, all,
  true, false, ◌≡◌, ◌≢◌, ◌↔◌, refl, sym, arith, Bool-cases, inl, inr,
}
use billy.Config.{
  Config, is_allowed, starts_with_hyphen, ends_with_hyphen, valid_hostname, resolve_config,
  load_config, log_value,
}
use billy.Errors.{ok, Result-cases}
use billy.Trim.{trim_space}

-- A letter, a digit or a hyphen, of ASCII.
abbrev pub IsAllowed : ℕ → Type 0
IsAllowed r =
    ((b'a' ≤ r) × (r ≤ b'z')) ⊎ ((b'A' ≤ r) × (r ≤ b'Z')) ⊎ ((b'0' ≤ r) × (r ≤ b'9')) ⊎ (r ≡ b'-')

-- A DNS label: 1 to 63 letters, digits and hyphens, with no hyphen at either end.
pub record IsLabel (h : List ℕ) : Type 0 where
  pub filled : 0 < length h
  pub short : length h ≤ 63
  pub first : ¬ ((rest : List ℕ) × (h ≡ b'-' ∷ rest))
  pub last : ¬ ((front : List ℕ) × (h ≡ front ++ b'-' ∷ []))
  pub letters : All IsAllowed h

filled_iff : (h : List ℕ) → (is_empty h ≡ false) ↔ (0 < length h)
filled_iff [] = (λ e. cc, λ e. absurd (omega arith))
filled_iff (r ∷ h) = (λ e. omega arith, λ e. refl)

first_iff :
    (h : List ℕ) → (starts_with_hyphen h ≡ false) ↔ (¬ ((rest : List ℕ) × (h ≡ b'-' ∷ rest)))
first_iff [] = (λ e (rest, q). cc, λ n. refl)
first_iff (r ∷ h) = (
  λ e (rest, q). let same : r ≡ b'-' = cc in ground arith,
  λ n. elim (Bool-cases (r == b'-')) [
    | inr e ↦ e
    | inl e ↦ let same : r ≡ b'-' = (==_iff r b'-').0 e in absurd (n (h, rw same))
  ],
)

ends_of_last : (front : List ℕ) → ends_with_hyphen (front ++ b'-' ∷ []) ≡ true
ends_of_last [] = refl
ends_of_last (r ∷ []) = refl
ends_of_last (r ∷ s ∷ front) = ends_of_last (s ∷ front)

last_of_ends :
    (h : List ℕ) → ends_with_hyphen h ≡ true → (front : List ℕ) × (h ≡ front ++ b'-' ∷ [])
last_of_ends [] e = cc
last_of_ends (r ∷ []) e = let same : r ≡ b'-' = (==_iff r b'-').0 e in ([], rw same)
last_of_ends (r ∷ s ∷ h) e = let (front, q) = last_of_ends (s ∷ h) e in (r ∷ front, ap (◌∷◌ r) q)

last_iff :
    (h : List ℕ) → (ends_with_hyphen h ≡ false) ↔ (¬ ((front : List ℕ) × (h ≡ front ++ b'-' ∷ [])))
last_iff h = (
  λ e (front, q). let t : ends_with_hyphen h ≡ true = rw q (ends_of_last front) in cc,
  λ n. elim (Bool-cases (ends_with_hyphen h)) [ inr e ↦ e | inl e ↦ absurd (n (last_of_ends h e)) ],
)

IsAllowed-iff : (r : ℕ) → (is_allowed r ≡ true) ↔ IsAllowed r
IsAllowed-iff r = ground arith

letters_iff : (h : List ℕ) → (all is_allowed h ≡ true) ↔ All IsAllowed h
letters_iff [] = (λ e. tt, λ e. refl)
letters_iff (r ∷ h) = (
  λ e.
      let (a, rest) = and-eq-true (is_allowed r) _ e in
      ((IsAllowed-iff r).0 a, (letters_iff h).0 rest),
  λ (a, rest). rw ((IsAllowed-iff r).1 a) ((letters_iff h).1 rest),
)

-- What the tests of `validHostname` say.
tests_ok :
    (h : List ℕ)
    → valid_hostname h ≡ ok tt
    → (is_empty h ≡ false)
      × (length h ≤ 63)
      × (starts_with_hyphen h ≡ false)
      × (ends_with_hyphen h ≡ false)
      × (all is_allowed h ≡ true)
unfolding valid_hostname
tests_ok h e = (ground arith, ground arith, ground arith, ground arith, ground arith)

IsLabel-of_ok : (h : List ℕ) → valid_hostname h ≡ ok tt → IsLabel h
IsLabel-of_ok h e =
    let (filled, short, first, last, letters) = tests_ok h e in
    record {
      filled = (filled_iff h).0 filled;
      short = short;
      first = (first_iff h).0 first;
      last = (last_iff h).0 last;
      letters = (letters_iff h).0 letters;
    }

ok_of_label : (h : List ℕ) → IsLabel h → valid_hostname h ≡ ok tt
unfolding valid_hostname
ok_of_label h l = ground (
  arith,
  (filled_iff h).1 l.filled,
  l.short,
  (first_iff h).1 l.first,
  (last_iff h).1 l.last,
  (letters_iff h).1 l.letters,
)

-- A host name passes exactly when it is a DNS label: 1 to 63 bytes, each an ASCII letter, a digit or a
-- hyphen, of which neither the first nor the last is a hyphen.
pub valid_hostname-eq-ok_iff : (h : List ℕ) → (valid_hostname h ≡ ok tt) ↔ IsLabel h
valid_hostname-eq-ok_iff h = (IsLabel-of_ok h, ok_of_label h)

module _ (join : List ℕ → List ℕ → List ℕ → List ℕ) where
  -- A configuration that is loaded is the one that the environment gives, names a book descriptor that
  -- is not blank, and has a DNS label for its host name.
  pub load_config_ok :
      (getenv : List ℕ → List ℕ) (user_config_dir : List ℕ) (cfg : Config)
      → load_config join getenv user_config_dir ≡ ok cfg
      → (cfg ≡ resolve_config join getenv user_config_dir)
        × (trim_space (resolve_config join getenv user_config_dir).book_descriptor ≢ [])
        × IsLabel (resolve_config join getenv user_config_dir).hostname
  unfolding load_config
  load_config_ok getenv user_config_dir cfg h =
      let c = resolve_config join getenv user_config_dir in
      elim (Bool-cases (is_empty (trim_space c.book_descriptor))) [
        | inl b ↦ cc (rw (b, load_config) at h)
        | inr b ↦ elim (Result-cases (valid_hostname c.hostname)) [
          | inr (cause, n) ↦ cc (rw (b, n, load_config) at h)
          | inl (u, n) ↦ (
            sym (cc (rw (b, n, load_config) at h)),
            not_blank (trim_space c.book_descriptor) b,
            IsLabel-of_ok c.hostname n,
          )
        ]
      ]
    where
      not_blank : (s : List ℕ) → is_empty s ≡ false → s ≢ []
      not_blank [] e = cc
      not_blank (r ∷ s) e = λ q. cc

-- Two configurations that differ only in the auth key, both with one or both without, are logged
-- alike.
pub log_value_hides :
    (c : Config) (key : List ℕ)
    → is_empty key ≡ is_empty c.auth_key
    → log_value (record c { auth_key = key }) ≡ log_value c
unfolding log_value
log_value_hides c key h = rw h
