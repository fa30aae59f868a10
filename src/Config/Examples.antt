-- ===== src/Config/Examples.antt =====
-- Runs of the configuration, and instances of its theorems.
use billy.Base.{ℕ, bytes_eq, codes, List, [], ◌∷◌, ◌++◌, is_empty, ◌≡◌, ◌↔◌, refl, if◌then◌else◌}
use billy.Config.{
  Config, or_default, valid_hostname, resolve_config, load_config, log_value, hyphen_at_end,
  descriptor_required,
}
use billy.Config.Checked.{IsLabel, valid_hostname-eq-ok_iff, log_value_hides}
use billy.Errors.{ok, err}
use billy.Trim.{trim_space}

program : Unit {0}
unfolding billy.Trim.three_byte_space billy.Trim.trim_front billy.Trim.ascii_space
    billy.Trim.two_byte_space trim_space bytes_eq or_default valid_hostname resolve_config
    load_config
program = tt

abbrev joined : List ℕ → List ℕ → List ℕ → List ℕ
joined a b c = a ++ b'/' ∷ b ++ b'/' ∷ c

-- Only the descriptor is set.
abbrev environment : List ℕ → List ℕ
environment name = if bytes_eq name (codes "BILLY_BOOK_DESCRIPTOR") then codes "b.json" else []

abbrev resolved : Config
resolved = resolve_config joined environment (codes "c")

loaded_runs : load_config joined environment (codes "c") ≡ ok resolved
unfolding program
loaded_runs = refl

hyphen_runs : valid_hostname (codes "a-") ≡ err hyphen_at_end
unfolding program
hyphen_runs = refl

unset_runs : load_config joined (λ name. []) (codes "c") ≡ err descriptor_required
unfolding program
unset_runs = refl

same_runs : is_empty (codes "k") ≡ is_empty (record resolved { auth_key = codes "l" }).auth_key
same_runs = refl

valid_hostname-eq-ok_iff_example : (valid_hostname (codes "a-") ≡ ok tt) ↔ IsLabel (codes "a-")
valid_hostname-eq-ok_iff_example = valid_hostname-eq-ok_iff (codes "a-")

log_value_hides_example :
    log_value (record resolved { auth_key = codes "k" })
    ≡ log_value (record resolved { auth_key = codes "l" })
log_value_hides_example =
    log_value_hides (record resolved { auth_key = codes "l" }) (codes "k") same_runs
