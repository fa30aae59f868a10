-- ===== src/Web/Examples.antt =====
-- Runs of the routes, and instances of their theorems.
use billy.Book.{Files, Book, end_of_file, open_media}
use billy.Web.{
  Response, not_found, Content, of_file, json, written, Exchange, serve_http, run_route,
  write_answer, match_request, elements, parts_eq, unescape_element, find_route, is_clean,
  write_alexa_response, handle_media, reject_unverified,
}
use billy.Web.Routed.{IsSpoken, serve_http-IsAuthentic}
use billy.Alexa.Dispatch.{BookText}
use billy.Alexa.Envelope.{Envelope, Request}
use billy.Alexa.Title.{Unicode}
use billy.Base.{◌≢◌, true, str_eq_iff, List, ◌++◌, String, Bool, false, none, ℕ}
use billy.Errors.{Result, Foreign}
use billy.Capture.{
  Disk, Os, written, capture_stem, save, save_files, write, abandon, remove_path,
  remove_capture_files,
}
use billy.Handler.{
  Incoming, read_body, wraps, failure_message, capture_note, capture_and_respond, respond,
  handle_alexa,
}
use billy.Verify.Sound.{IsAuthentic}
use billy.Base.{ℕ, codes, List, [], ◌∷◌, ◌≡◌, refl, some, bytes_eq, has_prefix}
use billy.Chain.{
  block_certificate, parse_blocks, split_chain, parse_pem_chain, roots_of, validate_chain,
  verify_certificate_hostname,
}
use billy.Cache.{lookup, get, make_room, put}
use billy.Errors.{ok, err}
use billy.Fetch.{
  fetch_http_client, client_do, read_limited, read_bundle, fetch_certificate_chain_once,
  fetch_attempts, fetch_certificate_chain,
}
use billy.Load.{check_chain, settle, checked_bundle, load_certificate_chain}
use billy.Signature.{verify_with_key, verify_body_signature}
use billy.Timestamp.{
  time_sub, duration_neg, is_skill_event, is_outside, allowed_for, verify_envelope,
  verify_timestamp,
}
use billy.Toy.{toy, services, verifier, moment, body, header}
use billy.Trim.{trim_space}
use billy.Url.Clean.{clean, clean_relative, clean_rooted, resolve_all, split_slash}
use billy.Url.Escape.{escape, unescape, hex_digit, path_should_escape, host_should_escape}
use billy.Url.Host.{equal_fold, split_host_port}
use billy.Url.Normalize.{
  normalize_cert_chain_url, normalize_parsed, normalize_path, url_string, canonical_url, hostname,
  port, cleaned_path, validate_cert_chain_host_port,
}
use billy.Verifier.{now, effective_tolerance}
use billy.Verify.{
  canonical_from, first_value, header_get, load, check_body, verify_signature, verify_fresh, verify,
}

program : Unit {0}
unfolding serve_http run_route write_answer match_request elements parts_eq unescape_element
    unescape find_route is_clean write_alexa_response handle_media open_media reject_unverified
    read_body wraps failure_message capture_note capture_and_respond respond handle_alexa
    capture_stem save save_files write abandon remove_path remove_capture_files
    billy.Trim.trim_front billy.Trim.ascii_space billy.Trim.two_byte_space clean clean_relative
    clean_rooted resolve_all split_slash escape hex_digit path_should_escape host_should_escape
    equal_fold split_host_port normalize_cert_chain_url normalize_parsed normalize_path url_string
    canonical_url hostname port cleaned_path bytes_eq has_prefix validate_cert_chain_host_port
    time_sub duration_neg is_skill_event is_outside allowed_for verify_envelope verify_timestamp
    trim_space block_certificate parse_blocks split_chain parse_pem_chain roots_of validate_chain
    verify_certificate_hostname lookup get make_room put fetch_http_client client_do read_limited
    read_bundle fetch_certificate_chain_once fetch_attempts fetch_certificate_chain check_chain
    settle checked_bundle load_certificate_chain verify_with_key verify_body_signature now
    effective_tolerance canonical_from first_value header_get load check_body verify_signature
    verify_fresh verify
program = tt

abbrev working : Os (List ℕ)
working = record {
  random = ok (codes "ff");
  stem_of = λ meta suffix. meta ++ suffix;
  marshal = λ meta. ok meta;
  join = λ dir name. dir ++ name;
  write_file = λ path content. written;
  remove_file = λ path. none;
}

abbrev tables : Unicode
tables = record {
  is_letter = λ r. false;
  is_digit = λ r. false;
  is_mark = λ r. false;
  to_lower = λ r. r;
}

abbrev json_bool : String → Result Foreign Bool
json_bool text = err 1

abbrev json_request : List ℕ → Result Foreign Request
json_request text = err 2

abbrev the_book : BookText
the_book = record { title = "T"; author = "" }

abbrev empty : Disk
empty = λ path. none

-- The signed body.
abbrev genuine : Incoming
genuine = record { header = header; sent = body; broken = none }

abbrev files : Files
files = record {
  open_file = λ name. none;
  decode = λ name. err 1;
  read_value = λ name. end_of_file;
  unmarshal_string = λ raw. err 1;
  is_abs = λ name. false;
  is_local = λ name. true;
  dir = λ name. "d";
  open_root = λ dir. none;
  open_in = λ dir name. none;
  stat = λ dir name. ok (record { is_regular = true; mod_time = 0 });
  close_media = none;
}

abbrev whole_file : ℕ → Content
whole_file time = record { status = 200; kind = of_file; sent = b'm' ∷ [] }

abbrev served_book : Book
served_book = record { title = "T"; author = ""; media_name = "m"; root = "d" }

-- An encoding that gives one byte.
abbrev encode : Envelope → Result Foreign (List ℕ)
encode e = ok (b'e' ∷ [])

abbrev exchange : String → List ℕ → Exchange toy
exchange method path =
    serve_http toy services verifier working (codes "d/") tables json_bool json_request encode none
      files whole_file (err 8) served_book (codes "m") (codes "h") 3 empty moment genuine method
      path

abbrev spoken : Response
spoken = record {
  status = 200;
  content_type = "application/json; charset=utf-8";
  body = json (b'e' ∷ []);
}

spoken_runs : (exchange "POST" (codes "/alexa")).reply ≡ some (written spoken)
unfolding program
spoken_runs = refl

-- An escaped letter in the path makes no difference, an escaped slash does.
escaped_letter :
    (match_request "POST" (codes "/%61lexa") ≡ match_request "POST" (codes "/alexa"))
    × (match_request "GET" (codes "/media%2Fbook.mp3") ≡ not_found)
unfolding program
escaped_letter = (refl, refl)

get_differs : ◌≢◌ {A = String} "GET" "POST"
get_differs e = let t : false ≡ true = (str_eq_iff "GET" "POST").1 e in cc

serve_http-IsAuthentic_example :
    (◌≡◌ {A = String} "POST" "POST")
    × (elements (codes "/alexa") ≡ [] ∷ codes "alexa" ∷ [])
    × IsAuthentic toy services verifier moment genuine.sent genuine.header
    × IsSpoken toy services verifier working
        (codes "d/")
        tables
        json_bool
        json_request
        encode
        none
        files
        whole_file
        (err 8)
        served_book
        (codes "h")
        genuine.sent
        spoken
serve_http-IsAuthentic_example =
    serve_http-IsAuthentic toy services verifier working (codes "d/") tables json_bool json_request
      encode none files whole_file (err 8) served_book (codes "m") (codes "h") 3 empty moment
      genuine "POST" (codes "/alexa") spoken tt tt spoken_runs refl
