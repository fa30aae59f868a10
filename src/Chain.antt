-- ===== src/Chain.antt =====
-- pkg/alexaverify/chain.go: `parsePEMChain`, `validateChain` and `verifyCertificateHostname`.
pub mod Split
mod Examples
use billy.Base.{
  ℕ, zero, suc, List, [], ◌∷◌, ◌++◌, length, is_empty, String, str_eq, Bool, if◌then◌else◌, Option,
  none, some,
}
use mathlib.Core.List.{foldl}
use billy.Base.Int.{ℤ}
use billy.Crypto.{Crypto, Block}
use billy.Errors.{Result, ok, err, ◌>>=◌, Error, Foreign, errorf, untrusted_chain, cert_hostname}
use billy.Trim.{trim_space}

-- constants.go
abbrev pub echo_api_domain : String
echo_api_domain = "echo-api.amazon.com"

pub record ParsedChain (x : Crypto) : Type 0 where
  pub leaf : x.Certificate
  pub intermediates : x.CertPool

module _ (x : Crypto) where
  -- What a block of the bundle is worth as a certificate.
  unfoldable pub block_certificate : Block → Result Error x.Certificate
  block_certificate block =
      if str_eq block.type "CERTIFICATE"
      then elim (x.parse_certificate block.bytes) [
        | ok certificate ↦ ok certificate
        | err cause ↦ err (errorf untrusted_chain)
      ]
      else err (errorf untrusted_chain)

  -- The loop of `parsePEMChain`, on fuel; none means that the fuel ran out.
  unfoldable pub parse_blocks :
      ℕ → List ℕ → List x.Certificate → Option (Result Error (List x.Certificate))
  parse_blocks zero remaining certificates = none
  parse_blocks (suc fuel) [] certificates = some (ok certificates)
  parse_blocks (suc fuel) (c ∷ remaining) certificates = elim (x.pem_decode (c ∷ remaining)) [
    | none ↦ some (err (errorf untrusted_chain))
    | some (block, rest) ↦ elim (block_certificate block) [
      | err e ↦ some (err e)
      | ok certificate ↦ parse_blocks fuel (trim_space rest) (certificates ++ certificate ∷ [])
    ]
  ]

  -- What `parsePEMChain` makes of the certificates.
  unfoldable pub split_chain : List x.Certificate → Result Error (ParsedChain x)
  split_chain [] = err (errorf untrusted_chain)
  split_chain (leaf ∷ others) =
      ok (record { leaf = leaf; intermediates = foldl x.add_cert x.new_cert_pool others })

  -- Each round takes at least one byte, so this fuel is enough.
  unfoldable pub parse_pem_chain : List ℕ → Option (Result Error (ParsedChain x))
  parse_pem_chain bundle = elim (parse_blocks (suc (length bundle)) (trim_space bundle) []) [
    | none ↦ none
    | some r ↦ some (r >>= split_chain)
  ]

  -- The injected roots, or the system's.
  unfoldable pub roots_of : Option x.CertPool → Result Error x.CertPool
  roots_of (some roots) = ok roots
  roots_of none = elim x.system_cert_pool [
    | ok roots ↦ ok roots
    | err cause ↦ err (errorf untrusted_chain)
  ]

  unfoldable pub validate_chain : Option x.CertPool → ParsedChain x → ℤ → Result Error (Unit {0})
  validate_chain injected chain now = roots_of injected >>= λ roots.
      elim (x.verify chain.leaf roots chain.intermediates now) [
        | ok _ ↦ ok tt
        | err cause ↦ err (errorf untrusted_chain)
      ]

  unfoldable pub verify_certificate_hostname : x.Certificate → Result Error (Unit {0})
  verify_certificate_hostname leaf = elim (x.verify_hostname leaf echo_api_domain) [
    | ok _ ↦ ok tt
    | err cause ↦ err (errorf cert_hostname)
  ]
