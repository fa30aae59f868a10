-- ===== src/Web/Routed.antt =====
-- What the answers of the service rest on.
use billy.Base.{
  ℕ, codes, List, [], ◌∷◌, String, Bool, ◌≡◌, ◌≢◌, ◌⊎◌, refl, sym, ap, ◌∙◌, Option, none, some, inl,
  inr,
}
use billy.Alexa.Dispatch.{dispatch_alexa_request}
use billy.Alexa.Envelope.{Envelope, Request}
use billy.Alexa.Title.{Unicode}
use billy.Book.{Files, Book, Info}
use billy.Capture.{FilePath, Disk, Os}
use billy.Crypto.{Crypto}
use billy.Errors.{Result, ok, Foreign, Result-cases}
use billy.Fetch.{HttpClient}
use billy.Handler.{Incoming, Answer, refused, answered, Handled, handle_alexa}
use billy.Handler.Guarded.{handle_alexa-IsAuthentic, handle_alexa_answers}
use billy.Load.Trust.{AllTrusted}
use billy.Verifier.{Verifier}
use billy.Verify.{Services, Moment}
use billy.Verify.Sound.{IsAuthentic}
use billy.Web.{
  json, Response, Content, reject_unverified, handle_healthz, write_alexa_response, handle_media,
  http_error, book_text, healthz, media, alexa, Match, handled_by, redirected, not_allowed,
  not_found, match_request, elements, written, Exchange, write_answer, run_route, serve_http,
}
use billy.Web.Matched.{json_type, match_alexa, plain-ne-json, media-ne-json}

module _ (x : Crypto) {Logger Metadata : Type 0} (env : Services)
    (v : Verifier x.CertPool HttpClient Logger) (os : Os Metadata) (dir : FilePath) (u : Unicode)
    (unmarshal_bool : String → Result Foreign Bool)
    (unmarshal_request : List ℕ → Result Foreign Request)
    (marshal : Envelope → Result Foreign (List ℕ)) (wrote : Option Foreign) (files : Files)
    (serve_content : ℕ → Content) (again : Result Foreign Info) (book : Book) where
  abbrev serve : Metadata → List ℕ → ℕ → Disk → Moment x → Incoming → String → List ℕ → Exchange x
  serve =
      serve_http x env v os dir u unmarshal_bool unmarshal_request marshal wrote files serve_content
        again book

  abbrev handle : Metadata → List ℕ → ℕ → Disk → Moment x → Incoming → Handled x
  handle = handle_alexa x env v os dir u unmarshal_bool unmarshal_request (book_text book)

  -- A JSON answer carries the encoded envelope, with the status 200.
  pub record IsSpoken (host sent : List ℕ) (response : Response) : Type 0 where
    pub encoded : List ℕ
    pub marshalled :
        marshal
          (dispatch_alexa_request u unmarshal_bool host (book_text book) (unmarshal_request sent)).0
        ≡ ok encoded
    pub status : response.status ≡ 200
    pub body : response.body ≡ json encoded

  written_json :
      (e : Envelope) (response : Response)
      → (write_alexa_response marshal wrote e).0 ≡ response
      → response.content_type ≡ json_type
      → (encoded : List ℕ) × (marshal e ≡ ok encoded)
        × (response.status ≡ 200)
        × (response.body ≡ json encoded)
  unfolding write_alexa_response
  written_json e response h j = elim (Result-cases (marshal e)) [
    | inr (cause, k) ↦
        let same = rw (k, write_alexa_response) at h in
        absurd (plain-ne-json (ap (λ (r : Response). r.content_type) same ∙ j))
    | inl (encoded, k) ↦
        let same = rw (k, write_alexa_response) at h in
        (
          encoded,
          k,
          sym (ap (λ (r : Response). r.status) same),
          sym (ap (λ (r : Response). r.body) same),
        )
  ]

  -- An answer in JSON was an envelope.
  answer_json :
      (answer : Option Answer) (response : Response)
      → write_answer x env v os dir u unmarshal_bool unmarshal_request marshal wrote files
          serve_content again book answer
        ≡ some (written response)
      → response.content_type ≡ json_type
      → (e : Envelope) × (answer ≡ some (answered e))
        × ((write_alexa_response marshal wrote e).0 ≡ response)
  unfolding write_answer reject_unverified
  answer_json none response h j = cc
  answer_json (some refused) response h j =
      let same : reject_unverified ≡ response = cc in
      absurd (plain-ne-json (ap (λ (r : Response). r.content_type) same ∙ j))
  answer_json (some (answered e)) response h j = (e, refl, cc)

  module _ (meta : Metadata) (host : List ℕ) (rejected : ℕ) (disk : Disk) (m : Moment x)
      (r : Incoming) (method : String) (path : List ℕ) where
    -- A JSON answer comes from the skill's route.
    serve_json :
        (response : Response) (k : Match)
        → match_request method path ≡ k
        → (serve meta host rejected disk m r method path).reply ≡ some (written response)
        → response.content_type ≡ json_type
        → (k ≡ handled_by alexa)
          × (e : Envelope) × ((handle meta host rejected disk m r).answer ≡ some (answered e))
          × ((write_alexa_response marshal wrote e).0 ≡ response)
    unfolding serve_http run_route handle_healthz
    serve_json response (handled_by alexa) k h j =
        let (e, a, w) =
          answer_json (handle meta host rejected disk m r).answer response (rw (k, serve_http) at h)
            j in
        (refl, e, a, w)
    serve_json response (handled_by healthz) k h j =
        let same : written handle_healthz ≡ written response = cc (rw (k, serve_http) at h) in
        let same' : handle_healthz ≡ response = cc in
        absurd (plain-ne-json (ap (λ (r : Response). r.content_type) same' ∙ j))
    serve_json response (handled_by media) k h j =
        let same : (handle_media u files serve_content again book).response ≡ response =
          cc (rw (k, serve_http) at h) in
        absurd (
          media-ne-json u files serve_content again book
            (ap (λ (r : Response). r.content_type) same ∙ j))
    serve_json response redirected k h j = cc (rw (k, serve_http) at h)
    serve_json response not_allowed k h j =
        let same : http_error "Method Not Allowed" 405 ≡ response = cc (rw (k, serve_http) at h) in
        absurd (plain-ne-json (ap (λ (r : Response). r.content_type) same ∙ j))
    serve_json response not_found k h j =
        let same : http_error "404 page not found" 404 ≡ response = cc (rw (k, serve_http) at h) in
        absurd (plain-ne-json (ap (λ (r : Response). r.content_type) same ∙ j))

    -- The service answers in JSON only to a POST for /alexa (as the elements of the path read once each
    -- is unescaped) that is authentic, with the status 200 and the whole encoding of the envelope that
    -- the dispatch makes of the bytes that were verified, if the cache holds only trusted chains whenever the call looks at it.
    pub serve_http-IsAuthentic :
        (response : Response)
        → AllTrusted x v.roots m.cache
        → AllTrusted x v.roots m.later
        → (serve meta host rejected disk m r method path).reply ≡ some (written response)
        → response.content_type ≡ json_type
        → (method ≡ "POST")
          × (elements path ≡ [] ∷ codes "alexa" ∷ [])
          × IsAuthentic x env v m r.sent r.header
          × IsSpoken host r.sent response
    serve_http-IsAuthentic response before after h j =
        let (k, e, a, w) = serve_json response (match_request method path) refl h j in
        let (post, alexa_path) = match_alexa method path k in
        let (_, _, _, made) =
          handle_alexa_answers x env v os dir u unmarshal_bool unmarshal_request (book_text book)
            meta host rejected disk m r e a in
        let (encoded, marshalled, status, content) = written_json e response w j in
        (
          post,
          alexa_path,
          handle_alexa-IsAuthentic x env v os dir u unmarshal_bool unmarshal_request
              (book_text book) meta host rejected disk m r e before after a,
          record {
            encoded = encoded;
            marshalled = ap marshal (sym made) ∙ marshalled;
            status = status;
            body = content;
          },
        )

    routed_keeps :
        (k : Match)
        → match_request method path ≡ k
        → k ≢ handled_by alexa
        → (serve meta host rejected disk m r method path).state
          ≡ record { rejected = rejected; cache = m.later; disk = disk }
    unfolding serve_http run_route
    routed_keeps (handled_by alexa) k other = absurd (other refl)
    routed_keeps (handled_by healthz) k other = rw (k, serve_http)
    routed_keeps (handled_by media) k other = rw (k, serve_http)
    routed_keeps redirected k other = rw (k, serve_http)
    routed_keeps not_allowed k other = rw (k, serve_http)
    routed_keeps not_found k other = rw (k, serve_http)

    -- A request with any other method than POST, or for a path whose unescaped elements are not those of /alexa, changes neither the
    -- count of rejections, nor the cache, nor the disk.
    pub serve_http_keeps :
        (method ≢ "POST") ⊎ (elements path ≢ [] ∷ codes "alexa" ∷ [])
        → (serve meta host rejected disk m r method path).state
          ≡ record { rejected = rejected; cache = m.later; disk = disk }
    serve_http_keeps other = routed_keeps (match_request method path) refl (λ k.
        let (post, alexa_path) = match_alexa method path k in
        elim other [ inl o ↦ o post | inr o ↦ o alexa_path ])
