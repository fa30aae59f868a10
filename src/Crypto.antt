-- ===== src/Crypto.antt =====
-- What the verifier takes from crypto/x509, encoding/pem, encoding/base64, crypto/sha256 and crypto/rsa.
--
-- These packages enter the development as the operations of this record. Nothing is assumed of them
-- here; where a theorem needs a documented fact, the theorem states it as a hypothesis.
use billy.Base.{ℕ, List, String, Option}
use billy.Base.Int.{ℤ}
use billy.Errors.{Result, Foreign}

-- `pem.Block`
pub record Block : Type 0 where
  pub type : String
  pub bytes : List ℕ

pub record Crypto : Type 1 where
  pub Certificate : Type 0
  pub CertPool : Type 0
  pub PublicKey : Type 0
  -- encoding/pem: the next block and the rest of the input.
  pub pem_decode : List ℕ → Option (Block × List ℕ)
  -- crypto/x509
  pub parse_certificate : List ℕ → Result Foreign Certificate
  pub not_before : Certificate → ℤ
  pub not_after : Certificate → ℤ
  pub new_cert_pool : CertPool
  pub add_cert : CertPool → Certificate → CertPool
  pub system_cert_pool : Result Foreign CertPool
  -- `Certificate.Verify` with the roots, the intermediates and the time of `VerifyOptions`.
  pub verify : Certificate → CertPool → CertPool → ℤ → Result Foreign (Unit {0})
  pub verify_hostname : Certificate → String → Result Foreign (Unit {0})
  -- `leaf.PublicKey.(*rsa.PublicKey)`
  pub rsa_public_key : Certificate → Option PublicKey
  -- encoding/base64, crypto/sha256 and crypto/rsa
  pub base64_decode : List ℕ → Result Foreign (List ℕ)
  pub sha256 : List ℕ → List ℕ
  pub verify_pkcs1v15 : PublicKey → List ℕ → List ℕ → Result Foreign (Unit {0})
