-- ===== src/Corpusgen/Certificates.antt =====
-- `createRoot`, `createIntermediate` and `createLeaf` of pkg/alexaverify/internal/corpusgen/main.go.
--
-- The generation of keys, the issuing of certificates and the tools for their encoding are arguments,
-- in the record `Tools`. Each call that draws random bits is numbered.
use billy.Base.{ℕ, ◌+◌, ◌*◌, codes, List, [], ◌∷◌, Bool, true, false}
use billy.Base.Int.{ℤ, pos_part, neg_part, sub_ℕ}
use billy.Crypto.{Crypto, Block}
use billy.Errors.{Result, ok, err, Foreign}
use billy.Timestamp.{second}

pub data Usage : Type 0 where
  cert_sign crl_sign digital_signature server_auth : Usage

-- The fields of the `x509.Certificate` that is used as a template.
pub record Template : Type 0 where
  pub serial : ℕ
  pub common_name : List ℕ
  pub dns_names : List (List ℕ)
  pub not_before : ℤ
  pub not_after : ℤ
  pub key_usage : List Usage
  pub ext_key_usage : List Usage
  pub basic_constraints_valid : Bool
  pub is_ca : Bool
  pub max_path_len : ℕ
  pub max_path_len_zero : Bool

-- The parent that signs: the template itself, or a certificate.
pub data Issuer (Certificate : Type 0) : Type 0 where
  by_itself : Issuer Certificate
  issued_by : Certificate → Issuer Certificate

-- `headers`
pub record Headers : Type 0 where
  pub signature_256 : List ℕ
  pub certificate_chain_url : List ℕ

pub record Tools (x : Crypto) : Type 1 where
  pub PrivateKey : Type 0
  pub parse_time : List ℕ → Result Foreign ℤ
  pub format_time : ℤ → List ℕ
  -- `rsa.GenerateKey` at its n-th call.
  pub generate_key : ℕ → Result Foreign PrivateKey
  pub public_key : PrivateKey → x.PublicKey
  pub create_certificate :
      Template → Issuer x.Certificate → x.PublicKey → PrivateKey → Result Foreign (List ℕ)
  pub raw : x.Certificate → List ℕ
  -- `rsa.SignPKCS1v15` of a digest.
  pub sign_pkcs1v15 : PrivateKey → List ℕ → Result Foreign (List ℕ)
  pub base64_encode : List ℕ → List ℕ
  pub pem_encode : Block → List ℕ
  pub marshal_headers : Headers → Result Foreign (List ℕ)

pub data PkiError : Type 0 where
  bad_time key_not_generated certificate_not_created certificate_not_parsed : Foreign → PkiError

infixl 5 ◌or_else◌
-- The error of a tool, under the message that the source gives it.
abbrev pub ◌or_else◌ {ℓ} :
    {A : Type ℓ} → Result Foreign A → (Foreign → PkiError) → Result PkiError A
ok a or_else message = ok a
err cause or_else message = err (message cause)

abbrev pub days : ℕ → ℕ
days n = n * 24 * 3600 * second

-- `now.Add(-d)` and `now.Add(d)`
abbrev pub ago : ℤ → ℕ → ℤ
ago now d = sub_ℕ (pos_part now) (neg_part now + d)

abbrev pub ahead : ℤ → ℕ → ℤ
ahead now d = sub_ℕ (pos_part now + d) (neg_part now)

abbrev pub root_template : ℤ → Template
root_template now = record {
  serial = 1001;
  common_name = codes "alexaverify synthetic corpus root";
  dns_names = [];
  not_before = ago now (days 365);
  not_after = ahead now (days 3650);
  key_usage = cert_sign ∷ crl_sign ∷ [];
  ext_key_usage = [];
  basic_constraints_valid = true;
  is_ca = true;
  max_path_len = 1;
  max_path_len_zero = false;
}

abbrev pub intermediate_template : ℤ → Template
intermediate_template now = record {
  serial = 1002;
  common_name = codes "alexaverify synthetic corpus intermediate";
  dns_names = [];
  not_before = ago now (days 180);
  not_after = ahead now (days 1825);
  key_usage = cert_sign ∷ crl_sign ∷ [];
  ext_key_usage = [];
  basic_constraints_valid = true;
  is_ca = true;
  max_path_len = 0;
  max_path_len_zero = true;
}

abbrev pub leaf_template : ℤ → Template
leaf_template now = record {
  serial = 1003;
  common_name = codes "alexaverify synthetic corpus leaf";
  dns_names = codes "echo-api.amazon.com" ∷ [];
  not_before = ago now (days 1);
  not_after = ahead now (days 365);
  key_usage = digital_signature ∷ [];
  ext_key_usage = server_auth ∷ [];
  basic_constraints_valid = false;
  is_ca = false;
  max_path_len = 0;
  max_path_len_zero = false;
}

infixl 5 ◌>>=◌
abbrev pub ◌>>=◌ {ℓ κ} :
    {A : Type ℓ} {B : Type κ} → Result PkiError A → (A → Result PkiError B) → Result PkiError B
ok a >>= k = k a
err e >>= k = err e

module _ (x : Crypto) (tools : Tools x) where
  unfoldable pub create_root : ℤ → Result PkiError (x.Certificate × tools.PrivateKey)
  create_root now = do
    key ← tools.generate_key 0 or_else key_not_generated
    der ←
        tools.create_certificate (root_template now) by_itself (tools.public_key key) key
        or_else certificate_not_created
    certificate ← x.parse_certificate der or_else certificate_not_parsed
    ok (certificate, key)

  unfoldable pub create_intermediate :
      ℤ → x.Certificate → tools.PrivateKey → Result PkiError (x.Certificate × tools.PrivateKey)
  create_intermediate now root root_key = do
    key ← tools.generate_key 1 or_else key_not_generated
    der ←
        tools.create_certificate (intermediate_template now) (issued_by root) (tools.public_key key)
          root_key
        or_else certificate_not_created
    certificate ← x.parse_certificate der or_else certificate_not_parsed
    ok (certificate, key)

  unfoldable pub create_leaf :
      ℤ → x.Certificate → tools.PrivateKey → Result PkiError (List ℕ × tools.PrivateKey)
  create_leaf now intermediate intermediate_key = do
    key ← tools.generate_key 2 or_else key_not_generated
    der ←
        tools.create_certificate (leaf_template now) (issued_by intermediate) (tools.public_key key)
          intermediate_key
        or_else certificate_not_created
    ok (der, key)
