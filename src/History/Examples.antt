-- ===== src/History/Examples.antt =====
-- Instances of the theorems on histories: a warm-up, and a request that runs beside it.
use mathlib.Core.List.{Permᴰ}
use mathlib.Core.List.Permᴰ
use billy.Base.{All, arith, ◌∷◌, []}
use billy.Cache.{new_cert_cache}
use billy.Cache.Invariant.{IsValid}
use billy.History.{Occurs, Cache, Meets, History}
use billy.History.Safe.{History-AllTrusted, History-IsValid, History-IsAuthentic}
use billy.Load.Trust.{AllTrusted}
use billy.Verify.{Moment, warm}
use billy.Verify.Sound.{IsAuthentic}
use billy.Base.{codes, [], ◌∷◌, ◌≡◌, refl, some, bytes_eq, has_prefix, All}
use billy.Chain.{
  block_certificate, parse_blocks, split_chain, parse_pem_chain, roots_of, validate_chain,
  verify_certificate_hostname,
}
use billy.Cache.{lookup, get, make_room, put}
use billy.Errors.{ok}
use billy.Fetch.{
  fetch_http_client, client_do, read_limited, read_bundle, fetch_certificate_chain_once,
  fetch_attempts, fetch_certificate_chain,
}
use billy.Load.{check_chain, settle, checked_bundle, load_certificate_chain}
use billy.Load.Trust.{AllTrusted}
use billy.Signature.{verify_with_key, verify_body_signature}
use billy.Timestamp.{
  time_sub, duration_neg, is_skill_event, is_outside, allowed_for, verify_envelope,
  verify_timestamp,
}
use billy.Toy.{toy, services, verifier, moment, body, header}
use billy.Trim.{trim_space}
use billy.Url.Clean.{clean, clean_relative, clean_rooted, resolve_all, split_slash}
use billy.Url.Escape.{escape, hex_digit, path_should_escape, host_should_escape}
use billy.Url.Host.{equal_fold, split_host_port}
use billy.Url.Normalize.{
  normalize_cert_chain_url, normalize_parsed, normalize_path, url_string, canonical_url, hostname,
  port, cleaned_path, validate_cert_chain_host_port,
}
use billy.Verifier.{now, effective_tolerance}
use billy.Verify.{
  canonical_from, first_value, header_get, load, check_body, verify_signature, verify_fresh, verify,
}

program : Unit {0}
unfolding billy.Trim.trim_front billy.Trim.ascii_space billy.Trim.two_byte_space clean
    clean_relative clean_rooted resolve_all split_slash escape hex_digit path_should_escape
    host_should_escape equal_fold split_host_port normalize_cert_chain_url normalize_parsed
    normalize_path url_string canonical_url hostname port cleaned_path bytes_eq has_prefix
    validate_cert_chain_host_port time_sub duration_neg is_skill_event is_outside allowed_for
    verify_envelope verify_timestamp trim_space block_certificate parse_blocks split_chain
    parse_pem_chain roots_of validate_chain verify_certificate_hostname lookup get make_room put
    fetch_http_client client_do read_limited read_bundle fetch_certificate_chain_once fetch_attempts
    fetch_certificate_chain check_chain settle checked_bundle load_certificate_chain verify_with_key
    verify_body_signature now effective_tolerance canonical_from first_value header_get load
    check_body verify_signature verify_fresh verify
program = tt

-- What the warm-up left.
abbrev warmed_cache : Cache toy verifier
warmed_cache = (warm toy services verifier moment (codes "u")).cache

first-Meets : Meets toy verifier moment new_cert_cache []
first-Meets = record { looked = Occurs.here []; changed = refl; order = Permᴰ.nil }

warmed-History : History toy verifier (warmed_cache ∷ new_cert_cache ∷ [])
warmed-History =
    History.warmed new_cert_cache [] services moment (codes "u") History.start first-Meets

-- A request that looked the cache up before the warm-up ended, and changes it afterwards.
abbrev beside : Moment toy
beside = record moment { later = warmed_cache; visited = warmed_cache.entries }

beside-Meets : Meets toy verifier beside warmed_cache (new_cert_cache ∷ [])
beside-Meets = record {
  looked = Occurs.there warmed_cache _ (Occurs.here []);
  changed = refl;
  order = Permᴰ.refl warmed_cache.entries;
}

beside_runs : (verify toy services verifier beside body header).result ≡ some (ok tt)
unfolding program
beside_runs = refl

History-AllTrusted_example :
    All (AllTrusted toy verifier.roots) (warmed_cache ∷ new_cert_cache ∷ [])
History-AllTrusted_example = History-AllTrusted toy verifier _ warmed-History

History-IsValid_example : All IsValid (warmed_cache ∷ new_cert_cache ∷ [])
History-IsValid_example = History-IsValid toy verifier _ warmed-History (omega arith)

History-IsAuthentic_example : IsAuthentic toy services verifier beside body header
History-IsAuthentic_example =
    History-IsAuthentic toy verifier warmed_cache (new_cert_cache ∷ []) services beside body header
      warmed-History beside-Meets beside_runs
