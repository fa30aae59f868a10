-- ===== src/Main/Exposed.antt =====
-- What a start has checked before it asks for the public listener.
use mathlib.Core.Path.{subst}
use billy.Base.{
  ℕ, List, [], ◌∷◌, ◌++◌, map, any, ◌≡◌, refl, sym, Bool, true, false, Option, none, some,
  Option-cases, Bool-cases, inl, inr,
}
use billy.Book.{Event, Book, root_dir, closed, load_book}
use billy.Book.Loaded.{IsLoaded, load_book_ok}
use billy.Capture.{new_capture_store}
use billy.Config.{Config, load_config, log_value}
use billy.Config.Checked.{IsLabel, load_config_ok}
use billy.Errors.{ok, Foreign, Result-cases}
use billy.Main.{
  Host, Act, book_io, book_not_closed, node_not_closed, log_starting, make_dir, node_made,
  node_closed, request_funnel, listener_opened, listener_closed, warm_started, warm_cancelled,
  log_serving, Started, logged, around, build_and_listen, join_tailnet, serve_configured,
  serve_funnel,
}
use billy.Version.{build_version}

-- The act asks tsnet for the public listener.
abbrev pub asks : Act → Bool
asks (request_funnel addr) = true
asks (book_io event) = false
asks (book_not_closed cause) = false
asks (node_not_closed cause) = false
asks (log_starting cfg version) = false
asks (make_dir dir) = false
asks node_made = false
asks node_closed = false
asks listener_opened = false
asks listener_closed = false
asks (warm_started url) = false
asks warm_cancelled = false
asks (log_serving hostname) = false

any-append : (s t : List Act) → any asks s ≡ false → any asks t ≡ false → any asks (s ++ t) ≡ false
any-append [] t e f = f
any-append (act ∷ s) t e f = elim (Bool-cases (asks act)) [
  | inl a ↦ cc (rw a at e)
  | inr a ↦ rw a (any-append s t (rw a at e) f)
]

book_io-silent : (events : List Event) → any asks (map book_io events) ≡ false
book_io-silent [] = refl
book_io-silent (e ∷ events) = book_io-silent events

logged-silent :
    (line : Foreign → Act) (cause : Option Foreign)
    → ((c : Foreign) → asks (line c) ≡ false)
    → any asks (logged line cause) ≡ false
logged-silent line none silent = refl
logged-silent line (some c) silent = rw (silent c)

-- Who asks within some acts that do not ask, asks in the body.
asks_within :
    (before after : List Act) (body : Started)
    → any asks before ≡ false
    → any asks after ≡ false
    → any asks (around before after body).0 ≡ true
    → any asks body.0 ≡ true
asks_within before after body b a h = elim (Bool-cases (any asks body.0)) [
  | inl e ↦ e
  | inr e ↦
      let silent : any asks (before ++ (body.0 ++ after)) ≡ false =
        any-append before (body.0 ++ after) b (any-append body.0 after e a) in
      cc
]

module _ (Pool Client : Type 0) {Logger : Type 0} (host : Host Logger) where
  -- What stands before the public listener is asked for.
  pub record IsReady (cfg : Config) : Type 0 where
    pub label : IsLabel cfg.hostname
    pub book : Book
    pub loaded : IsLoaded host.unicode host.files (host.name_text cfg.book_descriptor) book
    pub state_dir : host.mkdir_all cfg.state_dir ≡ none
    pub capture_dir : host.mkdir_all cfg.capture_dir ≡ none

  build_asks :
      (cfg : Config)
      → any asks (build_and_listen Pool Client host cfg).0 ≡ true
      → host.mkdir_all cfg.capture_dir ≡ none
  unfolding build_and_listen new_capture_store
  build_asks cfg h = elim (Option-cases (host.mkdir_all cfg.capture_dir)) [
    | inl d ↦ d
    | inr (cause, d) ↦ cc (rw (build_and_listen, new_capture_store, d) at h)
  ]

  join_asks :
      (cfg : Config)
      → any asks (join_tailnet Pool Client host cfg).0 ≡ true
      → (host.mkdir_all cfg.state_dir ≡ none) × (host.mkdir_all cfg.capture_dir ≡ none)
  unfolding join_tailnet
  join_asks cfg h = elim (Option-cases (host.mkdir_all cfg.state_dir)) [
    | inr (cause, d) ↦ cc (rw (join_tailnet, d) at h)
    | inl d ↦
        let node =
          around (node_made ∷ []) (node_closed ∷ logged node_not_closed host.close_node)
            (build_and_listen Pool Client host cfg) in
        let in_node : any asks node.0 ≡ true =
          asks_within (make_dir cfg.state_dir ∷ []) [] node refl refl (rw (join_tailnet, d) at h) in
        (
          d,
          build_asks cfg (
              asks_within (node_made ∷ []) (node_closed ∷ logged node_not_closed host.close_node)
                (build_and_listen Pool Client host cfg) refl
                (logged-silent node_not_closed host.close_node (λ c. refl)) in_node),
        )
  ]

  configured_asks :
      (cfg : Config)
      → IsLabel cfg.hostname
      → any asks (serve_configured Pool Client host cfg).0 ≡ true
      → IsReady cfg
  unfolding serve_configured
  configured_asks cfg label h =
      let name = host.name_text cfg.book_descriptor in
      let loaded = load_book host.unicode host.files name in
      elim (Result-cases loaded.1) [
        | inr (e, l) ↦
            let silent : any asks (map book_io loaded.0 ++ ([] ++ [])) ≡ false =
              any-append (map book_io loaded.0) [] (book_io-silent loaded.0) refl in
            cc (rw (serve_configured, l) at h)
        | inl (b, l) ↦
            let before =
              log_starting (log_value cfg) (build_version host.stamp host.build_info) ∷ [] in
            let after = book_io (closed root_dir) ∷ logged book_not_closed host.close_root in
            let body = around before after (join_tailnet Pool Client host cfg) in
            let in_body : any asks body.0 ≡ true =
              asks_within (map book_io loaded.0) [] body (book_io-silent loaded.0) refl
                (rw (serve_configured, l) at h) in
            let (state, capture) = join_asks cfg (
              asks_within before after (join_tailnet Pool Client host cfg) refl
                (logged-silent book_not_closed host.close_root (λ c. refl)) in_body) in
            record {
              label = label;
              book = b;
              loaded = load_book_ok host.unicode host.files name b l;
              state_dir = state;
              capture_dir = capture;
            }
      ]

  -- The public listener is asked for only after the environment gave a configuration that passes its
  -- checks, with a DNS label as its host name, the book and its media were validated, and both
  -- directories were made.
  pub serve_funnel_asks :
      any asks (serve_funnel Pool Client host).0 ≡ true
      → (user_config_dir : List ℕ) × (cfg : Config) × (load_config host.join host.getenv
            user_config_dir
          ≡ ok cfg)
        × IsReady cfg
  unfolding serve_funnel
  serve_funnel_asks h = elim (Result-cases host.user_config_dir) [
    | inr (cause, u) ↦ cc (rw (serve_funnel, u) at h)
    | inl (dir, u) ↦ elim (Result-cases (load_config host.join host.getenv dir)) [
      | inr (e, c) ↦ cc (rw (serve_funnel, u, c) at h)
      | inl (cfg, c) ↦
          let (same, _, label) = load_config_ok host.join host.getenv dir cfg c in
          (
            dir,
            cfg,
            c,
            configured_asks cfg (subst (λ (k : Config). IsLabel k.hostname) (sym same) label)
                (rw (serve_funnel, u, c) at h),
          )
    ]
  ]
