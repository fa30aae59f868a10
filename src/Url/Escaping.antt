-- ===== src/Url/Escaping.antt =====
-- What `unescape` undoes, and which bytes `escape` never writes.
use billy.Base.{
  ℕ, ◌+◌, ◌*◌, ◌/◌, ◌%◌, ◌<◌, ◌==◌, Bool, true, false, ◌≡◌, ◌≢◌, refl, ap, ◌∙◌, List, [], ◌∷◌, ◌++◌,
  All, arith, some, Bool-cases, inl, inr,
}
use mathlib.Core.Path.{subst}
use billy.Url.Separator.{Free}
use billy.Url.Escape.{escape, unescape, hex_digit, unhex, keep_byte, path_should_escape}

abbrev pub IsByte : ℕ → Type 0
IsByte c = c < 256

unhex-hex_digit : (n : ℕ) → n < 16 → unhex (hex_digit n) ≡ some n
unfolding unhex hex_digit
unhex-hex_digit n h = ground arith

-- Three bytes of an escape decode to one.
unescape_triple :
    (d e : ℕ) (s : List ℕ) {r : List ℕ} {hi lo : ℕ}
    → unhex d ≡ some hi
    → unhex e ≡ some lo
    → unescape s ≡ some r
    → unescape (b'%' ∷ d ∷ e ∷ s) ≡ some ((16 * hi + lo) ∷ r)
unfolding unescape
unescape_triple d e s p q r = rw (p, q, r)

-- A byte other than `%` stands for itself.
unescape_plain :
    (c : ℕ) (s : List ℕ) {r : List ℕ}
    → c ≢ b'%'
    → unescape s ≡ some r
    → unescape (c ∷ s) ≡ some (c ∷ r)
unfolding unescape
unescape_plain c [] p e = let q : (c == b'%') ≡ false = ground arith in rw q (ap (keep_byte c) e)
unescape_plain c (d ∷ []) p e =
    let q : (c == b'%') ≡ false = ground arith in rw q (ap (keep_byte c) e)
unescape_plain c (d ∷ d' ∷ s) p e =
    let q : (c == b'%') ≡ false = ground arith in rw q (ap (keep_byte c) e)

escape_coded :
    (f : ℕ → Bool) (c : ℕ) (s : List ℕ)
    → f c ≡ true
    → escape f (c ∷ s) ≡ b'%' ∷ hex_digit (c / 16) ∷ hex_digit (c % 16) ∷ escape f s
unfolding escape
escape_coded f c s e = rw e

escape_plain : (f : ℕ → Bool) (c : ℕ) (s : List ℕ) → f c ≡ false → escape f (c ∷ s) ≡ c ∷ escape f s
unfolding escape
escape_plain f c s e = rw e

-- A byte that `escape` writes as itself is neither a percent sign nor a question mark.
plain_byte : (c : ℕ) → path_should_escape c ≡ false → (c ≢ b'%') × (c ≢ b'?')
unfolding path_should_escape
plain_byte c h = (
  λ e. cc (subst (λ k. path_should_escape k ≡ false) e h),
  λ e. cc (subst (λ k. path_should_escape k ≡ false) e h),
)

-- Unescaping undoes escaping, on bytes.
pub unescape-escape : (s : List ℕ) → All IsByte s → unescape (escape path_should_escape s) ≡ some s
unescape-escape [] h = unfold unescape escape in refl
unescape-escape (c ∷ s) (b, h) = elim (Bool-cases (path_should_escape c)) [
  | inl e ↦ rw (escape_coded path_should_escape c s e) (
      unescape_triple _ _ _ (unhex-hex_digit (c / 16) (omega arith))
        (unhex-hex_digit (c % 16) (omega arith)) (unescape-escape s h)
      ∙ ap (λ k. some (k ∷ s)) (omega arith))
  | inr e ↦
      rw (escape_plain path_should_escape c s e)
        (unescape_plain c _ (plain_byte c e).0 (unescape-escape s h))
]

hex_digit-ne : (n : ℕ) → hex_digit n ≢ b'?'
unfolding hex_digit
hex_digit-ne n = ground arith

-- An escaped path holds no question mark.
pub escape-Free : (s : List ℕ) → Free b'?' (escape path_should_escape s)
escape-Free [] = unfold escape in tt
escape-Free (c ∷ s) = elim (Bool-cases (path_should_escape c)) [
  | inl e ↦
      rw (escape_coded path_should_escape c s e)
        (omega arith, (hex_digit-ne (c / 16), (hex_digit-ne (c % 16), escape-Free s)))
  | inr e ↦ rw (escape_plain path_should_escape c s e) ((plain_byte c e).1, escape-Free s)
]

-- Escaping is one to one on bytes.
pub escape_injective :
    (s t : List ℕ)
    → All IsByte s
    → All IsByte t
    → escape path_should_escape s ≡ escape path_should_escape t
    → s ≡ t
escape_injective s t h k e = cc (unescape-escape s h, unescape-escape t k, ap unescape e)

pub escape-append : (f : ℕ → Bool) (s t : List ℕ) → escape f (s ++ t) ≡ escape f s ++ escape f t
escape-append f [] t = unfold escape in refl
escape-append f (c ∷ s) t = elim (Bool-cases (f c)) [
  | inl e ↦ rw (escape_coded f c (s ++ t) e, escape_coded f c s e, escape-append f s t)
  | inr e ↦ rw (escape_plain f c (s ++ t) e, escape_plain f c s e, escape-append f s t)
]
