-- ===== src/Main/Drained.antt =====
-- A start that ends well has drained its server.
use billy.Base.{
  ℕ, List, [], ◌∷◌, ◌≡◌, refl, ap, ◌∙◌, true, Option, none, some, Option-cases, inl, inr,
}
use billy.Base.Int.{ℤ}
use billy.Book.{load_book}
use billy.Capture.{new_capture_store}
use billy.Config.{Config, load_config}
use billy.Errors.{ok, Foreign, Result-cases}
use billy.Main.{
  Host, StartError, node_of, action, exit_ok, serve_result, listen_and_serve, build_and_listen,
  join_tailnet, serve_configured, serve_funnel, run,
}
use billy.Main.Exits.{run-IsReported}
use billy.Server.{Service, drained, returned, Reaches}
use billy.Server.Orderly.{serve-IsOver}
use billy.Verifier.{with_logger, new}

serve_result-ok : (served : Option Foreign) → serve_result served ≡ ok tt → served ≡ none
unfolding serve_result
serve_result-ok none h = refl
serve_result-ok (some cause) h = cc

module _ (Pool Client : Type 0) {Logger : Type 0} (host : Host Logger) where
  listen_ok :
      (cfg : Config) → (listen_and_serve Pool Client host cfg).1 ≡ ok tt → host.served ≡ none
  unfolding listen_and_serve
  listen_ok cfg h = elim (Option-cases (host.listen_funnel (node_of cfg) cfg.addr)) [
    | inr (cause, l) ↦ cc (rw (listen_and_serve, l) at h)
    | inl l ↦ serve_result-ok host.served (rw (listen_and_serve, l) at h)
  ]

  build_ok : (cfg : Config) → (build_and_listen Pool Client host cfg).1 ≡ ok tt → host.served ≡ none
  unfolding build_and_listen
  build_ok cfg h = elim (Result-cases (new_capture_store host.mkdir_all cfg.capture_dir)) [
    | inr (cause, c) ↦ cc (rw (build_and_listen, c) at h)
    | inl (store, c) ↦
        elim (Result-cases (
          new {Pool = Pool} {Client = Client} host.default_log
            (with_logger (some host.log) ∷ []))) [
              | inr (cause, n) ↦ cc (rw (build_and_listen, c, n) at h)
              | inl (v, n) ↦ listen_ok cfg (rw (build_and_listen, c, n) at h)
            ]
  ]

  join_ok : (cfg : Config) → (join_tailnet Pool Client host cfg).1 ≡ ok tt → host.served ≡ none
  unfolding join_tailnet
  join_ok cfg h = elim (Option-cases (host.mkdir_all cfg.state_dir)) [
    | inr (cause, d) ↦ cc (rw (join_tailnet, d) at h)
    | inl d ↦ build_ok cfg (rw (join_tailnet, d) at h)
  ]

  configured_ok :
      (cfg : Config) → (serve_configured Pool Client host cfg).1 ≡ ok tt → host.served ≡ none
  unfolding serve_configured
  configured_ok cfg h =
      elim (Result-cases
        (load_book host.unicode host.files (host.name_text cfg.book_descriptor)).1) [
          | inr (e, l) ↦ cc (rw (serve_configured, l) at h)
          | inl (b, l) ↦ join_ok cfg (rw (serve_configured, l) at h)
        ]

  funnel_ok : (serve_funnel Pool Client host).1 ≡ ok tt → host.served ≡ none
  unfolding serve_funnel
  funnel_ok h = elim (Result-cases host.user_config_dir) [
    | inr (cause, u) ↦ cc (rw (serve_funnel, u) at h)
    | inl (dir, u) ↦ elim (Result-cases (load_config host.join host.getenv dir)) [
      | inr (e, c) ↦ cc (rw (serve_funnel, u, c) at h)
      | inl (cfg, c) ↦ configured_ok cfg (rw (serve_funnel, u, c) at h)
    ]
  ]

  -- If the command has no arguments and the exit code is 0, then the context was cancelled and every
  -- connection was drained. This takes what `serve` returned in a state that it reaches, and errors
  -- of the service that bring no exit code of their own.
  pub run_drains :
      (exit_coder : StartError → Option (ℤ × List ℕ)) (s : Service)
      → ((e : StartError) → exit_coder e ≡ none)
      → Reaches s
      → s.phase ≡ returned host.served
      → (run Pool Client host exit_coder (action [])).code ≡ exit_ok
      → (s.cancelled ≡ true) × (s.server ≡ drained)
  run_drains exit_coder s plain reached ended code =
      elim ((run-IsReported Pool Client host exit_coder (action []) plain).ok_iff.0 code) [
        | inl e ↦ cc
        | inr (_, well) ↦ serve-IsOver s none reached (ended ∙ ap returned (funnel_ok well))
      ]
