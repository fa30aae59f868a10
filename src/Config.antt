-- ===== src/Config.antt =====
-- config.go: `loadConfig`, `validHostname`, `orDefault` and `LogValue`.
--
-- A text is the list of its bytes. A host name with a byte outside ASCII is refused byte by byte, as
-- the source refuses it rune by rune. The environment and `filepath.Join` are arguments.
pub mod Checked
mod Examples
use billy.Base.{
  ℕ, leb, ltb, ◌==◌, codes, List, [], ◌∷◌, length, is_empty, all, Bool, true, false, not, ◌&&◌,
  ◌||◌, if◌then◌else◌, Option, none, some,
}
use billy.Errors.{Result, ok, err}
use billy.Trim.{trim_space}

pub record Config : Type 0 where
  pub hostname : List ℕ
  pub auth_key : List ℕ
  pub state_dir : List ℕ
  pub capture_dir : List ℕ
  pub cert_chain_url : List ℕ
  pub book_descriptor : List ℕ
  pub addr : List ℕ

-- The reasons for which a configuration is refused.
pub data ConfigError : Type 0 where
  descriptor_required wrong_length hyphen_at_end wrong_character : ConfigError

abbrev pub default_hostname : List ℕ
default_hostname = codes "billy"

abbrev pub default_cert_chain_url : List ℕ
default_cert_chain_url =
    codes "https://s3.amazonaws.com/echo.api/echo-api-cert-USAmazon-prod-30584302.pem"

unfoldable pub or_default : List ℕ → List ℕ → List ℕ
or_default value fallback = if is_empty value then fallback else value

abbrev pub is_allowed : ℕ → Bool
is_allowed r =
    (leb b'a' r && leb r b'z')
    || (leb b'A' r && leb r b'Z')
    || (leb b'0' r && leb r b'9')
    || r == b'-'

-- `strings.HasPrefix(h, "-")`
abbrev pub starts_with_hyphen : List ℕ → Bool
starts_with_hyphen [] = false
starts_with_hyphen (r ∷ h) = r == b'-'

-- `strings.HasSuffix(h, "-")`
abbrev pub ends_with_hyphen : List ℕ → Bool
ends_with_hyphen [] = false
ends_with_hyphen (r ∷ []) = r == b'-'
ends_with_hyphen (r ∷ s ∷ h) = ends_with_hyphen (s ∷ h)

unfoldable pub valid_hostname : List ℕ → Result ConfigError (Unit {0})
valid_hostname h =
    if is_empty h || ltb 63 (length h)
    then err wrong_length
    else if starts_with_hyphen h || ends_with_hyphen h
    then err hyphen_at_end
    else if all is_allowed h
    then ok tt
    else err wrong_character

module _ (join : List ℕ → List ℕ → List ℕ → List ℕ) where
  -- The configuration that the environment gives, before it is checked.
  unfoldable pub resolve_config : (List ℕ → List ℕ) → List ℕ → Config
  resolve_config getenv user_config_dir = record {
    hostname = or_default (getenv (codes "BILLY_HOSTNAME")) default_hostname;
    auth_key = getenv (codes "TS_AUTHKEY");
    state_dir =
        or_default (getenv (codes "BILLY_STATE_DIR"))
          (join user_config_dir (codes "billy") (codes "tsnet"));
    capture_dir =
        or_default (getenv (codes "BILLY_CAPTURE_DIR"))
          (join user_config_dir (codes "billy") (codes "capture"));
    cert_chain_url = or_default (getenv (codes "BILLY_CERT_CHAIN_URL")) default_cert_chain_url;
    book_descriptor = getenv (codes "BILLY_BOOK_DESCRIPTOR");
    addr = codes ":443";
  }

  unfoldable pub load_config : (List ℕ → List ℕ) → List ℕ → Result ConfigError Config
  load_config getenv user_config_dir =
      let cfg = resolve_config getenv user_config_dir in
      if is_empty (trim_space cfg.book_descriptor)
      then err descriptor_required
      else elim (valid_hostname cfg.hostname) [ err cause ↦ err cause | ok _ ↦ ok cfg ]

-- What `LogValue` shows.
pub record Logged : Type 0 where
  pub hostname : List ℕ
  pub auth_key_present : Bool
  pub state_dir : List ℕ
  pub capture_dir : List ℕ
  pub cert_chain_url : List ℕ
  pub book_descriptor : List ℕ
  pub addr : List ℕ

unfoldable pub log_value : Config → Logged
log_value c = record {
  hostname = c.hostname;
  auth_key_present = not (is_empty c.auth_key);
  state_dir = c.state_dir;
  capture_dir = c.capture_dir;
  cert_chain_url = c.cert_chain_url;
  book_descriptor = c.book_descriptor;
  addr = c.addr;
}
