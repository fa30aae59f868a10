-- ===== src/Signature/Examples.antt =====
-- Instances of the theorems on `verifyBodySignature`.
use billy.Base.{codes, ◌≡◌, ◌↔◌, refl, bytes_eq}
use billy.Errors.{ok, err, errorf, bad_signature}
use billy.Signature.{
  IsSigned, verify_with_key, verify_body_signature, verify_body_signature-eq-ok_iff,
}
use billy.Toy.{toy, body}

forged_runs : verify_body_signature toy body (codes "x") 5 ≡ err (errorf bad_signature)
unfolding verify_body_signature verify_with_key bytes_eq
forged_runs = refl

verify_body_signature-eq-ok_iff_example :
    (verify_body_signature toy body body 5 ≡ ok tt) ↔ IsSigned toy body body 5
verify_body_signature-eq-ok_iff_example = verify_body_signature-eq-ok_iff toy body body 5
