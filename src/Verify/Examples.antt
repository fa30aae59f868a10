-- ===== src/Verify/Examples.antt =====
-- Runs of `Verify` with concrete stand-ins for the libraries, and instances of its theorems.
use billy.Base.{
  ℕ, ◌≤◌, length, codes, List, [], ◌∷◌, ◌≡◌, ◌≢◌, refl, some, bytes_eq, has_prefix, All,
}
use billy.Chain.{
  block_certificate, parse_blocks, split_chain, parse_pem_chain, roots_of, validate_chain,
  verify_certificate_hostname,
}
use billy.Cache.{lookup, get, make_room, put}
use billy.Errors.{ok, err, errorf, bad_signature}
use billy.Fetch.{
  fetch_http_client, client_do, read_limited, read_bundle, fetch_certificate_chain_once,
  fetch_attempts, fetch_certificate_chain,
}
use billy.Load.{check_chain, settle, checked_bundle, load_certificate_chain}
use billy.Signature.{verify_with_key, verify_body_signature}
use billy.Timestamp.{
  time_sub, duration_neg, is_skill_event, is_outside, allowed_for, verify_envelope,
  verify_timestamp,
}
use billy.Toy.{toy, toy-Progresses, services, verifier, moment, body, header}
use billy.Trim.{trim_space}
use billy.Url.Clean.{clean, clean_relative, clean_rooted, resolve_all, split_slash}
use billy.Url.Escape.{escape, hex_digit, path_should_escape, host_should_escape}
use billy.Url.Host.{equal_fold, split_host_port}
use billy.Url.Normalize.{
  normalize_cert_chain_url, normalize_parsed, normalize_path, url_string, canonical_url, hostname,
  port, cleaned_path, validate_cert_chain_host_port,
}
use billy.Verifier.{now, effective_tolerance}
use billy.Verify.{
  canonical_from, first_value, header_get, load, check_body, verify_signature, verify_fresh, verify,
}
use billy.Verify.Egress.{MayConnect, verify_contacts}
use billy.Verify.Outcome.{IsDecided, verify-IsDecided}
use billy.Verify.Sound.{IsAuthentic, verify-IsAuthentic}

program : Unit {0}
unfolding billy.Trim.trim_front billy.Trim.ascii_space billy.Trim.two_byte_space clean
    clean_relative clean_rooted resolve_all split_slash escape hex_digit path_should_escape
    host_should_escape equal_fold split_host_port normalize_cert_chain_url normalize_parsed
    normalize_path url_string canonical_url hostname port cleaned_path bytes_eq has_prefix
    validate_cert_chain_host_port time_sub duration_neg is_skill_event is_outside allowed_for
    verify_envelope verify_timestamp trim_space block_certificate parse_blocks split_chain
    parse_pem_chain roots_of validate_chain verify_certificate_hostname lookup get make_room put
    fetch_http_client client_do read_limited read_bundle fetch_certificate_chain_once fetch_attempts
    fetch_certificate_chain check_chain settle checked_bundle load_certificate_chain verify_with_key
    verify_body_signature now effective_tolerance canonical_from first_value header_get load
    check_body verify_signature verify_fresh verify
program = tt

accepted_runs : (verify toy services verifier moment body header).result ≡ some (ok tt)
unfolding program
accepted_runs = refl

forged_runs :
    (verify toy services verifier moment (codes "x") header).result
    ≡ some (err (errorf bad_signature))
unfolding program
forged_runs = refl

contacted_runs :
    (verify toy services verifier moment body header).contacted
    ≡ codes "https://s3.amazonaws.com/echo.api/c" ∷ []
unfolding program
contacted_runs = refl

contacts_run : (verify toy services verifier moment body header).contacted ≢ []
contacts_run = rw contacted_runs (λ e. cc)

verify-IsAuthentic_example : IsAuthentic toy services verifier moment body header
verify-IsAuthentic_example =
    verify-IsAuthentic toy services verifier moment body header tt tt accepted_runs

verify_contacts_example :
    (url : List ℕ) × MayConnect toy services verifier moment body header url
    × All (λ u. u ≡ url) (verify toy services verifier moment body header).contacted
    × (length (verify toy services verifier moment body header).contacted ≤ 2)
verify_contacts_example = verify_contacts toy services verifier moment body header contacts_run

verify-IsDecided_example :
    IsDecided toy services verifier (verify toy services verifier moment body header).result
verify-IsDecided_example = verify-IsDecided toy services verifier moment body header toy-Progresses
