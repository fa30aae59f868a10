-- ===== src/Signature.antt =====
-- pkg/alexaverify/signature.go: `verifyBodySignature`.
mod Examples
use billy.Base.{ℕ, List, Option, none, some, ◌≡◌, ◌↔◌, refl, arith, inl, inr, Option-cases}
use billy.Crypto.{Crypto}
use billy.Errors.{
  Result, ok, err, Error, errorf, unsupported_key, bad_signature, Result-cases, Sentinel,
}

module _ (x : Crypto) where
  -- The base64 decoding of the header and the check over the digest of the body.
  unfoldable pub verify_with_key : x.PublicKey → List ℕ → List ℕ → Result Error (Unit {0})
  verify_with_key key body encoded = elim (x.base64_decode encoded) [
    | err cause ↦ err (errorf bad_signature)
    | ok signature ↦ elim (x.verify_pkcs1v15 key (x.sha256 body) signature) [
      | err cause ↦ err (errorf bad_signature)
      | ok _ ↦ ok tt
    ]
  ]

  unfoldable pub verify_body_signature : List ℕ → List ℕ → x.Certificate → Result Error (Unit {0})
  verify_body_signature body encoded leaf = elim (x.rsa_public_key leaf) [
    | none ↦ err (errorf unsupported_key)
    | some key ↦ verify_with_key key body encoded
  ]

  -- The header value is the base64 form of a signature of the body by the leaf's RSA key.
  pub record IsSigned (body encoded : List ℕ) (leaf : x.Certificate) : Type 0 where
    pub key : x.PublicKey
    pub signature : List ℕ
    pub has_key : x.rsa_public_key leaf ≡ some key
    pub decodes : x.base64_decode encoded ≡ ok signature
    pub verifies : x.verify_pkcs1v15 key (x.sha256 body) signature ≡ ok tt

  IsSigned-of_ok :
      (body encoded : List ℕ) (leaf : x.Certificate)
      → verify_body_signature body encoded leaf ≡ ok tt
      → IsSigned body encoded leaf
  unfolding verify_body_signature verify_with_key
  IsSigned-of_ok body encoded leaf h = elim (Option-cases (x.rsa_public_key leaf)) [
    | inl e ↦ cc (rw (e, verify_body_signature) at h)
    | inr (key, e) ↦ elim (Result-cases (x.base64_decode encoded)) [
      | inr (cause, d) ↦ cc (rw (e, d, verify_body_signature, verify_with_key) at h)
      | inl (signature, d) ↦ elim (Result-cases (x.verify_pkcs1v15 key (x.sha256 body) signature)) [
        | inr (cause, v) ↦ cc (rw (e, d, v, verify_body_signature, verify_with_key) at h)
        | inl (u, v) ↦ record {
          key = key;
          signature = signature;
          has_key = e;
          decodes = d;
          verifies = v;
        }
      ]
    ]
  ]

  ok_of_signed :
      (body encoded : List ℕ) (leaf : x.Certificate)
      → IsSigned body encoded leaf
      → verify_body_signature body encoded leaf ≡ ok tt
  unfolding verify_body_signature verify_with_key
  ok_of_signed body encoded leaf s =
      rw (s.has_key, s.decodes, s.verifies, verify_body_signature, verify_with_key)

  -- The check passes exactly when the leaf has an RSA key, the header decodes from base64, and the key
  -- verifies that signature over the SHA-256 digest of the body as it is.
  pub verify_body_signature-eq-ok_iff :
      (body encoded : List ℕ) (leaf : x.Certificate)
      → (verify_body_signature body encoded leaf ≡ ok tt) ↔ IsSigned body encoded leaf
  verify_body_signature-eq-ok_iff body encoded leaf =
      (IsSigned-of_ok body encoded leaf, ok_of_signed body encoded leaf)

  -- A failure wraps the unsupported-key sentinel or the bad-signature sentinel, and nothing else.
  pub verify_body_signature_error :
      (body encoded : List ℕ) (leaf : x.Certificate) (e : Error)
      → verify_body_signature body encoded leaf ≡ err e
      → (s : Sentinel) × (e ≡ errorf s)
  unfolding verify_body_signature verify_with_key
  verify_body_signature_error body encoded leaf e h = elim (Option-cases (x.rsa_public_key leaf)) [
    | inl k ↦ (unsupported_key, ground arith)
    | inr (key, k) ↦ (bad_signature, ground arith)
  ]
