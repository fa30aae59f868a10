-- ===== src/Warm/Examples.antt =====
-- A run of the warm-up, and an instance of its theorem.
use mathlib.Core.List.Permᴰ
use billy.Cache.Invariant.{new_cert_cache-IsValid}
use billy.Warm.{did_warm, warm_line, start_certificate_cache_warm}
use billy.Warm.Seeded.{warm_spares}
use billy.Verify.{Moment, forget, warm}
use billy.Base.{codes, [], ◌≡◌, refl, some, bytes_eq, has_prefix}
use billy.Chain.{
  block_certificate, parse_blocks, split_chain, parse_pem_chain, roots_of, validate_chain,
  verify_certificate_hostname,
}
use billy.Cache.{lookup, get, make_room, put}
use billy.Errors.{ok}
use billy.Fetch.{
  fetch_http_client, client_do, read_limited, read_bundle, fetch_certificate_chain_once,
  fetch_attempts, fetch_certificate_chain,
}
use billy.Load.{check_chain, settle, checked_bundle, load_certificate_chain}
use billy.Signature.{verify_with_key, verify_body_signature}
use billy.Timestamp.{
  time_sub, duration_neg, is_skill_event, is_outside, allowed_for, verify_envelope,
  verify_timestamp,
}
use billy.Toy.{toy, services, verifier, moment, body, header}
use billy.Trim.{trim_space}
use billy.Url.Clean.{clean, clean_relative, clean_rooted, resolve_all, split_slash}
use billy.Url.Escape.{escape, hex_digit, path_should_escape, host_should_escape}
use billy.Url.Host.{equal_fold, split_host_port}
use billy.Url.Normalize.{
  normalize_cert_chain_url, normalize_parsed, normalize_path, url_string, canonical_url, hostname,
  port, cleaned_path, validate_cert_chain_host_port,
}
use billy.Verifier.{now, effective_tolerance}
use billy.Verify.{
  cert_chain_url_header, canonical_from, first_value, header_get, load, check_body,
  verify_signature, verify_fresh, verify,
}

program : Unit {0}
unfolding billy.Trim.trim_front billy.Trim.ascii_space billy.Trim.two_byte_space clean
    clean_relative clean_rooted resolve_all split_slash escape hex_digit path_should_escape
    host_should_escape equal_fold split_host_port normalize_cert_chain_url normalize_parsed
    normalize_path url_string canonical_url hostname port cleaned_path bytes_eq has_prefix
    validate_cert_chain_host_port time_sub duration_neg is_skill_event is_outside allowed_for
    verify_envelope verify_timestamp trim_space block_certificate parse_blocks split_chain
    parse_pem_chain roots_of validate_chain verify_certificate_hostname lookup get make_room put
    fetch_http_client client_do read_limited read_bundle fetch_certificate_chain_once fetch_attempts
    fetch_certificate_chain check_chain settle checked_bundle load_certificate_chain verify_with_key
    verify_body_signature now effective_tolerance canonical_from first_value header_get load
    check_body verify_signature verify_fresh verify forget warm warm_line
    start_certificate_cache_warm
program = tt

-- A request after the warm-up.
abbrev after : Moment toy
after = record moment {
  cache = (start_certificate_cache_warm toy services verifier moment (codes "u")).0.cache;
}

warm_runs :
    (start_certificate_cache_warm toy services verifier moment (codes "u")).1
    ≡ some (did_warm (codes "u"))
unfolding program
warm_runs = refl

same_url_runs :
    normalize_cert_chain_url services.parse_url (header_get header cert_chain_url_header)
    ≡ ok (codes "https://s3.amazonaws.com/echo.api/c")
unfolding program
same_url_runs = refl

seed_url_runs :
    normalize_cert_chain_url services.parse_url (codes "u")
    ≡ ok (codes "https://s3.amazonaws.com/echo.api/c")
unfolding program
seed_url_runs = refl

warm_spares_example : (verify toy services verifier after body header).contacted ≡ []
warm_spares_example =
    warm_spares toy services verifier moment after (codes "u") (codes "u")
      (codes "https://s3.amazonaws.com/echo.api/c") body header seed_url_runs same_url_runs
      Permᴰ.nil new_cert_cache-IsValid refl warm_runs refl
