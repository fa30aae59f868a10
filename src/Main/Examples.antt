-- ===== src/Main/Examples.antt =====
-- Runs of a start, and instances of their theorems.
use billy.Base.{
  ℕ, bytes_eq, codes, List, [], ◌∷◌, ◌++◌, any, leb, true, false, ◌≡◌, refl, if◌then◌else◌, none,
  some,
}
use billy.Alexa.Title.{Unicode, normalize_runes, normalize_title}
use billy.Book.{
  Files, Descriptor, end_of_file, is_blank, split_at, contains_parent_element, reject_trailing_json,
  check_author, check_descriptor, close_result, open_media, validate_media, open_book, load_open,
  load_book,
}
use billy.Capture.{new_capture_store}
use billy.Config.{Config, or_default, valid_hostname, resolve_config, load_config, log_value}
use billy.Errors.{ok}
use billy.Main.{
  Host, action, exit_failure, serve_result, listen_and_serve, build_and_listen, join_tailnet,
  serve_configured, serve_funnel, report, run_command, run,
}
use billy.Main.Deferred.{held, serve_funnel_releases}
use billy.Main.Exits.{IsReported, run-IsReported}
use billy.Main.{exit_ok}
use billy.Main.Drained.{run_drains}
use billy.Server.{at, returned, sent, drained, server_closed, Step, Reaches}
use billy.Main.Exposed.{asks, IsReady, serve_funnel_asks}
use billy.Trim.{trim_space}
use billy.Verifier.{apply_settings, finish, new}
use billy.Version.{build_version, released}

program : Unit {0}
unfolding billy.Trim.three_byte_space billy.Trim.trim_front billy.Trim.ascii_space
    billy.Trim.two_byte_space trim_space bytes_eq or_default valid_hostname resolve_config
    load_config log_value normalize_runes normalize_title is_blank split_at contains_parent_element
    reject_trailing_json check_author check_descriptor close_result open_media validate_media
    open_book load_open load_book new_capture_store apply_settings finish new build_version released
    serve_result listen_and_serve build_and_listen join_tailnet serve_configured serve_funnel report
    run_command run
program = tt

abbrev tables : Unicode
tables = record {
  is_letter = λ r. leb b'a' r;
  is_digit = λ r. false;
  is_mark = λ r. false;
  to_lower = λ r. r;
}

abbrev descriptor : Descriptor
descriptor = record { title = "a book"; author = none; mp3 = "c.mp3" }

abbrev files : Files
files = record {
  open_file = λ name. none;
  decode = λ name. ok descriptor;
  read_value = λ name. end_of_file;
  unmarshal_string = λ raw. ok "me";
  is_abs = λ name. false;
  is_local = λ name. true;
  dir = λ name. "d";
  open_root = λ dir. none;
  open_in = λ dir name. none;
  stat = λ dir name. ok (record { is_regular = true; mod_time = 0 });
  close_media = none;
}

-- Everything works, and only the descriptor is set.
abbrev host : Host (Unit {0})
host = record {
  user_config_dir = ok (codes "c");
  getenv = λ name. if bytes_eq name (codes "BILLY_BOOK_DESCRIPTOR") then codes "b.json" else [];
  join = λ a b c. a ++ b'/' ∷ b ++ b'/' ∷ c;
  name_text = λ name. "b.json";
  unicode = tables;
  files = files;
  close_root = none;
  mkdir_all = λ dir. none;
  listen_funnel = λ node addr. none;
  close_node = none;
  log = tt;
  default_log = tt;
  stamp = record { version = codes "1"; commit = []; date = [] };
  build_info = none;
  served = none;
}

-- The funnel is refused.
abbrev unreachable : Host (Unit {0})
unreachable = record host { listen_funnel = λ node addr. some 7 }

served_runs : (serve_funnel (Unit {0}) (Unit {0}) host).1 ≡ ok tt
unfolding program
served_runs = refl

asked_runs : any asks (serve_funnel (Unit {0}) (Unit {0}) host).0 ≡ true
unfolding program
asked_runs = refl

unreachable_runs :
    (run (Unit {0}) (Unit {0}) unreachable (λ e. none) (action [])).code ≡ exit_failure
unfolding program
unreachable_runs = refl

serve_funnel_releases_example : held [] (serve_funnel (Unit {0}) (Unit {0}) unreachable).0 ≡ []
serve_funnel_releases_example = serve_funnel_releases (Unit {0}) (Unit {0}) unreachable

serve_funnel_asks_example :
    (user_config_dir : List ℕ) × (cfg : Config) × (load_config host.join host.getenv user_config_dir
      ≡ ok cfg)
    × IsReady (Unit {0}) (Unit {0}) host cfg
serve_funnel_asks_example = serve_funnel_asks (Unit {0}) (Unit {0}) host asked_runs

run-IsReported_example : IsReported (Unit {0}) (Unit {0}) host (λ e. none) (action (codes "x" ∷ []))
run-IsReported_example =
    run-IsReported (Unit {0}) (Unit {0}) host (λ e. none) (action (codes "x" ∷ [])) (λ e. refl)

-- A run of the server that ends without an error.
drained-Reaches : Reaches (at (returned none) sent none true drained)
drained-Reaches =
    let cancelled = Reaches.next Reaches.here Step.cancel in
    let stopped = Reaches.next (Reaches.next cancelled Step.see_done) Step.shut_down in
    let emptied = Reaches.next stopped Step.drain in
    let told =
      Reaches.next (Reaches.next emptied (Step.serve_ends server_closed refl)) (Step.send none) in
    Reaches.next told (Step.receive_last none)

run_runs : (run (Unit {0}) (Unit {0}) host (λ e. none) (action [])).code ≡ exit_ok
unfolding program
run_runs = refl

run_drains_example :
    ((at (returned none) sent none true drained).cancelled ≡ true)
    × ((at (returned none) sent none true drained).server ≡ drained)
run_drains_example =
    run_drains (Unit {0}) (Unit {0}) host (λ e. none) (at (returned none) sent none true drained)
      (λ e. refl) drained-Reaches refl run_runs
