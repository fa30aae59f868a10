-- ===== src/Handler/Examples.antt =====
-- Runs of the handler, and instances of its theorems.
use billy.Alexa.Dispatch.{BookText, dispatch_alexa_request}
use billy.Alexa.Envelope.{Envelope, Request}
use billy.Alexa.Title.{Unicode}
use billy.Base.{List, ◌++◌, String, Bool, false, none, ℕ}
use billy.Errors.{Result, Foreign, Sentinel}
use billy.Capture.{
  Disk, Os, written, capture_stem, save, save_files, write, abandon, remove_path,
  remove_capture_files,
}
use billy.Handler.{
  Incoming, Handled, refused, answered, unverified, add_one, read_body, wraps, failure_message,
  capture_note, capture_and_respond, respond, handle_alexa,
}
use billy.Handler.Guarded.{handle_alexa_refuses, handle_alexa_logs}
use billy.Handler.Logged.{message_of, failure_message-WrapsOne}
use billy.Base.{ℕ, codes, List, [], ◌∷◌, ◌≡◌, refl, some, bytes_eq, has_prefix}
use billy.Chain.{
  block_certificate, parse_blocks, split_chain, parse_pem_chain, roots_of, validate_chain,
  verify_certificate_hostname,
}
use billy.Cache.{lookup, get, make_room, put}
use billy.Errors.{ok, err, errorf, bad_signature}
use billy.Fetch.{
  fetch_http_client, client_do, read_limited, read_bundle, fetch_certificate_chain_once,
  fetch_attempts, fetch_certificate_chain,
}
use billy.Load.{check_chain, settle, checked_bundle, load_certificate_chain}
use billy.Signature.{verify_with_key, verify_body_signature}
use billy.Timestamp.{
  time_sub, duration_neg, is_skill_event, is_outside, allowed_for, verify_envelope,
  verify_timestamp,
}
use billy.Toy.{toy, toy-Progresses, services, verifier, moment, body, header}
use billy.Trim.{trim_space}
use billy.Url.Clean.{clean, clean_relative, clean_rooted, resolve_all, split_slash}
use billy.Url.Escape.{escape, hex_digit, path_should_escape, host_should_escape}
use billy.Url.Host.{equal_fold, split_host_port}
use billy.Url.Normalize.{
  normalize_cert_chain_url, normalize_parsed, normalize_path, url_string, canonical_url, hostname,
  port, cleaned_path, validate_cert_chain_host_port,
}
use billy.Verifier.{now, effective_tolerance}
use billy.Verify.{
  canonical_from, first_value, header_get, load, check_body, verify_signature, verify_fresh, verify,
}

program : Unit {0}
unfolding read_body wraps failure_message capture_note capture_and_respond respond handle_alexa
    capture_stem save save_files write abandon remove_path remove_capture_files
    billy.Trim.trim_front billy.Trim.ascii_space billy.Trim.two_byte_space clean clean_relative
    clean_rooted resolve_all split_slash escape hex_digit path_should_escape host_should_escape
    equal_fold split_host_port normalize_cert_chain_url normalize_parsed normalize_path url_string
    canonical_url hostname port cleaned_path bytes_eq has_prefix validate_cert_chain_host_port
    time_sub duration_neg is_skill_event is_outside allowed_for verify_envelope verify_timestamp
    trim_space block_certificate parse_blocks split_chain parse_pem_chain roots_of validate_chain
    verify_certificate_hostname lookup get make_room put fetch_http_client client_do read_limited
    read_bundle fetch_certificate_chain_once fetch_attempts fetch_certificate_chain check_chain
    settle checked_bundle load_certificate_chain verify_with_key verify_body_signature now
    effective_tolerance canonical_from first_value header_get load check_body verify_signature
    verify_fresh verify
program = tt

abbrev working : Os (List ℕ)
working = record {
  random = ok (codes "ff");
  stem_of = λ meta suffix. meta ++ suffix;
  marshal = λ meta. ok meta;
  join = λ dir name. dir ++ name;
  write_file = λ path content. written;
  remove_file = λ path. none;
}

abbrev tables : Unicode
tables = record {
  is_letter = λ r. false;
  is_digit = λ r. false;
  is_mark = λ r. false;
  to_lower = λ r. r;
}

abbrev json_bool : String → Result Foreign Bool
json_bool text = err 1

abbrev json_request : List ℕ → Result Foreign Request
json_request text = err 2

abbrev the_book : BookText
the_book = record { title = "T"; author = "" }

abbrev empty : Disk
empty = λ path. none

-- The signed body, and one that was changed on its way.
abbrev genuine : Incoming
genuine = record { header = header; sent = body; broken = none }

abbrev changed : Incoming
changed = record { header = header; sent = codes "x"; broken = none }

abbrev handled : Incoming → Handled toy
handled r =
    handle_alexa toy services verifier working (codes "d/") tables json_bool json_request the_book
      (codes "m") (codes "h") 3 empty moment r

abbrev envelope : Envelope
envelope = (dispatch_alexa_request tables json_bool (codes "h") the_book (json_request body)).0

genuine_runs : (handled genuine).answer ≡ some (answered envelope)
unfolding program
genuine_runs = refl

changed_runs : (handled changed).answer ≡ some refused
unfolding program
changed_runs = refl

read_runs : read_body changed ≡ ok (codes "x")
unfolding program
read_runs = refl

handle_alexa_refuses_example :
    ((handled changed).state.disk ≡ empty) × ((handled changed).state.rejected ≡ add_one 3)
handle_alexa_refuses_example =
    handle_alexa_refuses toy services verifier working (codes "d/") tables json_bool json_request
      the_book (codes "m") (codes "h") 3 empty moment changed changed_runs

handle_alexa_logs_example :
    (s : Sentinel) × ((handled changed).notes
      ≡ unverified (message_of s).0 (message_of s).1 (add_one 3) ∷ [])
handle_alexa_logs_example =
    handle_alexa_logs toy services verifier working (codes "d/") tables json_bool json_request
      the_book (codes "m") (codes "h") 3 empty moment changed (codes "x") toy-Progresses read_runs
      changed_runs

failure_message-WrapsOne_example : failure_message (errorf bad_signature) ≡ message_of bad_signature
failure_message-WrapsOne_example =
    failure_message-WrapsOne bad_signature (errorf bad_signature) refl
