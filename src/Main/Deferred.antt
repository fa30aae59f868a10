-- ===== src/Main/Deferred.antt =====
-- What a start leaves open: its deferred calls close everything.
use billy.Base.{
  ℕ, ◌==◌, List, [], ◌∷◌, ◌++◌, map, if◌then◌else◌, ◌≡◌, refl, ap, ◌∙◌, Option, none, some,
  Bool-cases, Option-cases, inl, inr,
}
use billy.Book.{Handle, root_dir, Event, opened, closed, load_book}
use billy.Book.Opened.{number, release, still_open, kept, load_book_leaves}
use billy.Capture.{new_capture_store}
use billy.Config.{Config, load_config, log_value}
use billy.Errors.{Foreign, Result-cases}
use billy.Main.{
  Host, Act, book_io, book_not_closed, node_not_closed, log_starting, make_dir, node_made,
  node_closed, request_funnel, listener_opened, listener_closed, warm_started, warm_cancelled,
  log_serving, Started, node_of, logged, around, listen_and_serve, build_and_listen, join_tailnet,
  serve_configured, serve_funnel,
}
use billy.Version.{build_version}
use billy.Verifier.{with_logger, new}

pub data Resource : Type 0 where
  file : Handle → Resource
  node listener warming : Resource

abbrev index : Resource → ℕ
index (file h) = number h
index node = 3
index listener = 4
index warming = 5

-- The resources without the last acquired one of this kind.
abbrev drop : Resource → List Resource → List Resource
drop r [] = []
drop r (k ∷ rs) = if index r == index k then rs else k ∷ drop r rs

-- What is held after an act.
abbrev after_act : List Resource → Act → List Resource
after_act rs (book_io (opened h)) = file h ∷ rs
after_act rs (book_io (closed h)) = drop (file h) rs
after_act rs node_made = node ∷ rs
after_act rs node_closed = drop node rs
after_act rs listener_opened = listener ∷ rs
after_act rs listener_closed = drop listener rs
after_act rs (warm_started url) = warming ∷ rs
after_act rs warm_cancelled = drop warming rs
after_act rs (book_not_closed cause) = rs
after_act rs (node_not_closed cause) = rs
after_act rs (log_starting cfg version) = rs
after_act rs (make_dir dir) = rs
after_act rs (request_funnel addr) = rs
after_act rs (log_serving hostname) = rs

abbrev pub held : List Resource → List Act → List Resource
held rs [] = rs
held rs (act ∷ acts) = held (after_act rs act) acts

held-append :
    (rs : List Resource) (acts later : List Act)
    → held rs (acts ++ later) ≡ held (held rs acts) later
held-append rs [] later = refl
held-append rs (act ∷ acts) later = held-append (after_act rs act) acts later

drop-file : (h : Handle) (hs : List Handle) → drop (file h) (map file hs) ≡ map file (release h hs)
drop-file h [] = refl
drop-file h (k ∷ hs) = elim (Bool-cases (number h == number k)) [
  | inl e ↦ rw e
  | inr e ↦ rw (e, drop-file h hs)
]

held-book_io :
    (hs : List Handle) (events : List Event)
    → held (map file hs) (map book_io events) ≡ map file (still_open hs events)
held-book_io hs [] = refl
held-book_io hs (opened h ∷ events) = held-book_io (h ∷ hs) events
held-book_io hs (closed h ∷ events) =
    ap (λ rs. held rs (map book_io events)) (drop-file h hs) ∙ held-book_io (release h hs) events

-- What is held before these acts is held after them, and no more.
abbrev IsNeutral : List Act → Type 0
IsNeutral acts = (rs : List Resource) → held rs acts ≡ rs

-- Acts around a neutral body are neutral if they are without it.
around-IsNeutral :
    (before after : List Act) (body : Started)
    → ((rs : List Resource) → held (held rs before) after ≡ rs)
    → IsNeutral body.0
    → IsNeutral (around before after body).0
around-IsNeutral before after body surround neutral rs =
    held-append rs before (body.0 ++ after)
    ∙ held-append (held rs before) body.0 after
    ∙ ap (λ rs'. held rs' after) (neutral (held rs before))
    ∙ surround rs

logged-IsNeutral :
    (line : Foreign → Act) (cause : Option Foreign)
    → ((c : Foreign) (rs : List Resource) → after_act rs (line c) ≡ rs)
    → IsNeutral (logged line cause)
logged-IsNeutral line none silent rs = refl
logged-IsNeutral line (some c) silent rs = silent c rs

module _ (Pool Client : Type 0) {Logger : Type 0} (host : Host Logger) where
  listen_and_serve-IsNeutral : (cfg : Config) → IsNeutral (listen_and_serve Pool Client host cfg).0
  unfolding listen_and_serve
  listen_and_serve-IsNeutral cfg rs =
      elim (Option-cases (host.listen_funnel (node_of cfg) cfg.addr)) [
        | inr (cause, l) ↦ rw (listen_and_serve, l)
        | inl l ↦ rw (listen_and_serve, l)
      ]

  build_and_listen-IsNeutral : (cfg : Config) → IsNeutral (build_and_listen Pool Client host cfg).0
  unfolding build_and_listen
  build_and_listen-IsNeutral cfg rs =
      elim (Result-cases (new_capture_store host.mkdir_all cfg.capture_dir)) [
        | inr (cause, c) ↦ rw (build_and_listen, c)
        | inl (store, c) ↦
            elim (Result-cases (
              new {Pool = Pool} {Client = Client} host.default_log
                (with_logger (some host.log) ∷ []))) [
                  | inr (cause, n) ↦ rw (build_and_listen, c, n)
                  | inl (v, n) ↦
                      rw (build_and_listen, c, n)
                        (around-IsNeutral (make_dir cfg.capture_dir ∷ []) []
                          (listen_and_serve Pool Client host cfg) (λ rs'. refl)
                          (listen_and_serve-IsNeutral cfg) rs)
                ]
      ]

  join_tailnet-IsNeutral : (cfg : Config) → IsNeutral (join_tailnet Pool Client host cfg).0
  unfolding join_tailnet
  join_tailnet-IsNeutral cfg rs = elim (Option-cases (host.mkdir_all cfg.state_dir)) [
    | inr (cause, d) ↦ rw (join_tailnet, d)
    | inl d ↦
        rw (join_tailnet, d)
          (around-IsNeutral (make_dir cfg.state_dir ∷ []) []
            (around (node_made ∷ []) (node_closed ∷ logged node_not_closed host.close_node)
              (build_and_listen Pool Client host cfg))
            (λ rs'. refl)
            (around-IsNeutral (node_made ∷ [])
              (node_closed ∷ logged node_not_closed host.close_node)
              (build_and_listen Pool Client host cfg)
              (λ rs'. logged-IsNeutral node_not_closed host.close_node (λ c rs''. refl) rs')
              (build_and_listen-IsNeutral cfg))
            rs)
  ]

  -- The book's directory is held while the tailnet is joined, and given back at the end.
  with_book :
      (cfg : Config)
      → held
          (file root_dir ∷ [])
          (around
            (log_starting (log_value cfg) (build_version host.stamp host.build_info) ∷ [])
            (book_io (closed root_dir) ∷ logged book_not_closed host.close_root)
            (join_tailnet Pool Client host cfg)).0
        ≡ []
  with_book cfg =
      rw
        (
          held-append (file root_dir ∷ []) (join_tailnet Pool Client host cfg).0
              (book_io (closed root_dir) ∷ logged book_not_closed host.close_root),
          join_tailnet-IsNeutral cfg (file root_dir ∷ []),
        )
        (logged-IsNeutral book_not_closed host.close_root (λ c rs. refl) [])

  serve_configured_releases :
      (cfg : Config) → held [] (serve_configured Pool Client host cfg).0 ≡ []
  unfolding serve_configured
  serve_configured_releases cfg =
      let name = host.name_text cfg.book_descriptor in
      let loaded = load_book host.unicode host.files name in
      let begun : held [] (map book_io loaded.0) ≡ map file (kept (root_dir ∷ []) loaded.1) =
        held-book_io [] loaded.0 ∙ ap (map file) (load_book_leaves host.unicode host.files name) in
      elim (Result-cases loaded.1) [
        | inr (e, l) ↦
            let none_left : held [] (map book_io loaded.0) ≡ [] =
              begun ∙ ap (λ r. map file (kept (root_dir ∷ []) r)) l in
            rw (serve_configured, l, held-append [] (map book_io loaded.0) [], none_left)
        | inl (b, l) ↦
            let root_left : held [] (map book_io loaded.0) ≡ file root_dir ∷ [] =
              begun ∙ ap (λ r. map file (kept (root_dir ∷ []) r)) l in
            let body =
              around (log_starting (log_value cfg) (build_version host.stamp host.build_info) ∷ [])
                (book_io (closed root_dir) ∷ logged book_not_closed host.close_root)
                (join_tailnet Pool Client host cfg) in
            rw (serve_configured, l)
              (held-append [] (map book_io loaded.0) (body.0 ++ [])
                ∙ ap (λ rs. held rs (body.0 ++ [])) root_left
                ∙ held-append (file root_dir ∷ []) body.0 []
                ∙ with_book cfg)
      ]

  -- On every path, errors included, a start has closed what it opened when it returns: the files of
  -- the book, the node, the listener and the warm-up.
  pub serve_funnel_releases : held [] (serve_funnel Pool Client host).0 ≡ []
  unfolding serve_funnel
  serve_funnel_releases = elim (Result-cases host.user_config_dir) [
    | inr (cause, u) ↦ rw (serve_funnel, u)
    | inl (dir, u) ↦ elim (Result-cases (load_config host.join host.getenv dir)) [
      | inr (e, c) ↦ rw (serve_funnel, u, c)
      | inl (cfg, c) ↦ rw (serve_funnel, u, c) (serve_configured_releases cfg)
    ]
  ]
