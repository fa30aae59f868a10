-- ===== src/Main.antt =====
-- main.go: `run` and `serveFunnel`.
--
-- A start is the list of what it does, in order, with its result; a deferred call stands where it runs.
-- The operating system, tsnet, the command-line library and what `serve` returns are arguments. A file
-- name is a list of bytes, and `name_text` is what book.go reads of it.
pub mod Deferred
pub mod Exposed
pub mod Exits
pub mod Drained
mod Examples
use billy.Base.{ℕ, List, [], ◌∷◌, ◌++◌, map, String, Bool, false, Option, none, some}
use billy.Base.Int.{ℤ, pos}
use billy.Alexa.Title.{Unicode}
use billy.Book.{Files, Book, BookError, Event, closed, root_dir, load_book}
use billy.Capture.{FilePath, new_capture_store}
use billy.Config.{Config, ConfigError, Logged, load_config, log_value}
use billy.Errors.{Result, ok, err, Foreign}
use billy.Verifier.{with_logger, new}
use billy.Version.{Stamp, BuildInfo, build_version}

-- The fields of `tsnet.Server` that decide something.
pub record Node : Type 0 where
  pub dir : FilePath
  pub hostname : List ℕ
  pub auth_key : List ℕ
  pub ephemeral : Bool

pub data Act : Type 0 where
  book_io : Event → Act
  book_not_closed node_not_closed : Foreign → Act
  log_starting : Logged → List ℕ → Act
  make_dir : FilePath → Act
  node_made node_closed : Act
  request_funnel : List ℕ → Act
  listener_opened listener_closed : Act
  warm_started : List ℕ → Act
  warm_cancelled : Act
  log_serving : List ℕ → Act

pub data StartError : Type 0 where
  no_config_dir : Foreign → StartError
  bad_config : ConfigError → StartError
  bad_book : BookError → StartError
  state_dir_not_made capture_dir_not_made no_verifier not_listening not_served :
      Foreign → StartError

abbrev pub Started : Type 0
Started = List Act × Result StartError (Unit {0})

-- What a start takes from its surroundings.
pub record Host (Logger : Type 0) : Type 0 where
  pub user_config_dir : Result Foreign FilePath
  pub getenv : List ℕ → List ℕ
  pub join : List ℕ → List ℕ → List ℕ → List ℕ
  pub name_text : FilePath → String
  pub unicode : Unicode
  pub files : Files
  -- `Root.Close`
  pub close_root : Option Foreign
  pub mkdir_all : FilePath → Option Foreign
  pub listen_funnel : Node → List ℕ → Option Foreign
  pub close_node : Option Foreign
  pub log : Logger
  pub default_log : Logger
  pub stamp : Stamp
  pub build_info : Option BuildInfo
  -- What `serve` returns.
  pub served : Option Foreign

abbrev pub node_of : Config → Node
node_of cfg = record {
  dir = cfg.state_dir;
  hostname = cfg.hostname;
  auth_key = cfg.auth_key;
  ephemeral = false;
}

-- A failure that a deferred call logs.
abbrev pub logged : (Foreign → Act) → Option Foreign → List Act
logged line none = []
logged line (some cause) = line cause ∷ []

-- Some acts, what they are done for, and the deferred acts.
abbrev pub around : List Act → List Act → Started → Started
around before after body = (before ++ (body.0 ++ after), body.1)

abbrev pub fail : StartError → Started
fail e = ([], err e)

unfoldable pub serve_result : Option Foreign → Result StartError (Unit {0})
serve_result none = ok tt
serve_result (some cause) = err (not_served cause)

module _ (Pool Client : Type 0) {Logger : Type 0} (host : Host Logger) where
  -- From the call of `ListenFunnel`.
  unfoldable pub listen_and_serve : Config → Started
  listen_and_serve cfg =
      around (request_funnel cfg.addr ∷ []) [] (elim (host.listen_funnel (node_of cfg) cfg.addr) [
        | some cause ↦ fail (not_listening cause)
        | none ↦
            around
              (listener_opened ∷ warm_started cfg.cert_chain_url ∷ log_serving cfg.hostname ∷ [])
              (warm_cancelled ∷ listener_closed ∷ []) ([], serve_result host.served)
      ])

  -- From the call of `newCaptureStore`.
  unfoldable pub build_and_listen : Config → Started
  build_and_listen cfg =
      around (make_dir cfg.capture_dir ∷ []) []
        (elim (new_capture_store host.mkdir_all cfg.capture_dir) [
          | err cause ↦ fail (capture_dir_not_made cause)
          | ok store ↦
              elim (new {Pool = Pool} {Client = Client} host.default_log
                (with_logger (some host.log) ∷ [])) [
                  | err cause ↦ fail (no_verifier cause)
                  | ok verifier ↦ listen_and_serve cfg
                ]
        ])

  -- From the making of the state directory.
  unfoldable pub join_tailnet : Config → Started
  join_tailnet cfg = around (make_dir cfg.state_dir ∷ []) [] (elim (host.mkdir_all cfg.state_dir) [
    | some cause ↦ fail (state_dir_not_made cause)
    | none ↦
        around (node_made ∷ []) (node_closed ∷ logged node_not_closed host.close_node)
          (build_and_listen cfg)
  ])

  -- From the call of `loadBook`.
  unfoldable pub serve_configured : Config → Started
  serve_configured cfg =
      let loaded = load_book host.unicode host.files (host.name_text cfg.book_descriptor) in
      around (map book_io loaded.0) [] (elim loaded.1 [
        | err e ↦ fail (bad_book e)
        | ok book ↦
            around (log_starting (log_value cfg) (build_version host.stamp host.build_info) ∷ [])
              (book_io (closed root_dir) ∷ logged book_not_closed host.close_root)
              (join_tailnet cfg)
      ])

  unfoldable pub serve_funnel : Started
  serve_funnel = elim host.user_config_dir [
    | err cause ↦ fail (no_config_dir cause)
    | ok user_config_dir ↦ elim (load_config host.join host.getenv user_config_dir) [
      | err e ↦ fail (bad_config e)
      | ok cfg ↦ serve_configured cfg
    ]
  ]

-- What the command-line library makes of the arguments: an error in a flag, the help or the version
-- that it prints itself, or the action with the positional arguments.
pub data Call : Type 0 where
  misused : List ℕ → Call
  shown : Call
  action : List (List ℕ) → Call

pub data CommandError : Type 0 where
  usage : List ℕ → CommandError
  takes_no_arguments : List (List ℕ) → CommandError
  service : StartError → CommandError

abbrev pub exit_ok : ℤ
exit_ok = pos 0

abbrev pub exit_failure : ℤ
exit_failure = pos 1

abbrev pub exit_usage : ℤ
exit_usage = pos 2

-- What goes to stderr at the end.
pub data Report : Type 0 where
  plain : List ℕ → Report
  plain_arguments : List (List ℕ) → Report
  service_failed : StartError → Report

pub record Ended : Type 0 where
  pub acts : List Act
  pub code : ℤ
  pub reports : List Report

-- A message that is empty is not printed.
abbrev pub printed : List ℕ → List Report
printed [] = []
printed (c ∷ text) = plain (c ∷ text) ∷ []

-- `exit_coder` is what `errors.AsType[cli.ExitCoder]` finds in an error of the service: its code and
-- its message. What `cli.Exit` makes is one.
unfoldable pub report :
    (StartError → Option (ℤ × List ℕ)) → Result CommandError (Unit {0}) → ℤ × List Report
report exit_coder (ok _) = (exit_ok, [])
report exit_coder (err (usage text)) = (exit_usage, printed text)
report exit_coder (err (takes_no_arguments args)) = (exit_usage, plain_arguments args ∷ [])
report exit_coder (err (service e)) = elim (exit_coder e) [
  | some (code, text) ↦ (code, printed text)
  | none ↦ (exit_failure, service_failed e ∷ [])
]

module _ (Pool Client : Type 0) {Logger : Type 0} (host : Host Logger) where
  -- `Command.Run`
  unfoldable pub run_command : Call → List Act × Result CommandError (Unit {0})
  run_command (misused text) = ([], err (usage text))
  run_command shown = ([], ok tt)
  run_command (action []) =
      let started = serve_funnel Pool Client host in
      (started.0, elim started.1 [ err e ↦ err (service e) | ok _ ↦ ok tt ])
  run_command (action (arg ∷ args)) = ([], err (takes_no_arguments (arg ∷ args)))

  unfoldable pub run : (StartError → Option (ℤ × List ℕ)) → Call → Ended
  run exit_coder call =
      let done = run_command call in
      let reported = report exit_coder done.1 in
      record { acts = done.0; code = reported.0; reports = reported.1 }
