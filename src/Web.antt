-- ===== src/Web.antt =====
-- handlers.go: the routes, `handleMedia`, `writeAlexaResponse` and `handleHealthz`.
--
-- `http.ServeMux` is written out for patterns of a method and a whole path: GET also takes HEAD, a path
-- that `path.Clean` would change is redirected, and a known path with another method is refused with
-- 405. What `http.ServeContent` makes of the file's time and `json.Marshal` of an envelope are
-- arguments. A path is the list of its bytes as the request writes them, escaped; the mux compares
-- its elements once each is unescaped.
pub mod Matched
pub mod Routed
mod Examples
use billy.Base.{
  ℕ, ◌==◌, bytes_eq, codes, List, [], ◌∷◌, ◌++◌, is_empty, any, String, str_eq, Bool, true, false,
  map, not, ◌&&◌, ◌||◌, if◌then◌else◌, Option, none, some,
}
use billy.Alexa.Dispatch.{BookText}
use billy.Alexa.Envelope.{Envelope, Request}
use billy.Alexa.Title.{Unicode}
use billy.Book.{Files, Book, Info, Event, closed, media_file, Traced, BookError, open_media}
use billy.Cache.{CertCache}
use billy.Capture.{FilePath, Disk, Os}
use billy.Crypto.{Crypto}
use billy.Errors.{Result, ok, err, Foreign}
use billy.Fetch.{HttpClient}
use billy.Handler.{Incoming, Answer, refused, answered, State, Handled, handle_alexa}
use billy.Url.Clean.{clean, split_slash}
use billy.Url.Escape.{unescape}
use billy.Verifier.{Verifier}
use billy.Verify.{Services, Moment}

pub data Body : Type 0 where
  text : String → Body
  json : List ℕ → Body
  content : List ℕ → Body

pub record Response : Type 0 where
  pub status : ℕ
  pub content_type : String
  pub body : Body

-- `http.Error`, which ends the message with a line feed.
abbrev pub http_error : String → ℕ → Response
http_error message status = record {
  status = status;
  content_type = "text/plain; charset=utf-8";
  body = text message;
}

abbrev pub verification_failure_body : String
verification_failure_body = "request verification failed"

-- `rejectUnverified`
unfoldable pub reject_unverified : Response
reject_unverified = http_error verification_failure_body 400

unfoldable pub handle_healthz : Response
handle_healthz = record {
  status = 200;
  content_type = "text/plain; charset=utf-8";
  body = text "ok\n";
}

-- What is logged about the media and the writing of an answer.
pub data Line : Type 0 where
  media_not_opened : BookError → Line
  media_not_closed media_not_inspected not_encoded not_written : Foreign → Line

-- A failure of `Write` is only logged.
abbrev pub write_lines : Option Foreign → List Line
write_lines none = []
write_lines (some cause) = not_written cause ∷ []

-- What `Write` returns is an argument.
unfoldable pub write_alexa_response :
    (Envelope → Result Foreign (List ℕ)) → Option Foreign → Envelope → Response × List Line
write_alexa_response marshal wrote envelope = elim (marshal envelope) [
  | err cause ↦ (http_error "internal error" 500, not_encoded cause ∷ [])
  | ok encoded ↦ (
    record { status = 200; content_type = "application/json; charset=utf-8"; body = json encoded },
    write_lines wrote,
  )
]

-- What becomes of the Content-Type that the handler sets: it is kept with the whole file, with one
-- range of it and with a failed precondition (200, 206, 412), several ranges are sent as parts (206),
-- an unmodified file is not sent (304), and a failure is told as text (416, 500).
pub data ContentKind : Type 0 where
  of_file in_parts not_modified failed : ContentKind

abbrev pub content_type_of : ContentKind → String
content_type_of of_file = "audio/mpeg"
content_type_of in_parts = "multipart/byteranges"
content_type_of not_modified = ""
content_type_of failed = "text/plain; charset=utf-8"

-- What `http.ServeContent` sends.
pub record Content : Type 0 where
  pub status : ℕ
  pub kind : ContentKind
  pub sent : List ℕ

-- What a handler of media gives: the files it opened and closed, the answer, and what it logs.
pub record Served : Type 0 where
  pub events : List Event
  pub response : Response
  pub lines : List Line

-- The deferred `Close`.
unfoldable pub close_lines : Option Foreign → List Line
close_lines none = []
close_lines (some cause) = media_not_closed cause ∷ []

-- The Content-Type that the handler sets, and what `http.ServeContent` makes of it.
abbrev media_response : Content → Response
media_response c = record {
  status = c.status;
  content_type = content_type_of c.kind;
  body = content c.sent;
}

-- `handleMedia`; the file is inspected a second time. `serve_content` is what `http.ServeContent`
-- makes of the request and the file, given the file's time.
unfoldable pub handle_media : Unicode → Files → (ℕ → Content) → Result Foreign Info → Book → Served
handle_media u files serve_content again book =
    let media = open_media u files book in
    elim media.1 [
      | err e ↦ record {
        events = media.0;
        response = http_error "media unavailable" 500;
        lines = media_not_opened e ∷ [];
      }
      | ok _ ↦ elim again [
        | err cause ↦ record {
          events = media.0 ++ closed media_file ∷ [];
          response = http_error "media unavailable" 500;
          lines = media_not_inspected cause ∷ close_lines files.close_media;
        }
        | ok info ↦ record {
          events = media.0 ++ closed media_file ∷ [];
          response = media_response (serve_content info.mod_time);
          lines = close_lines files.close_media;
        }
      ]
    ]

pub data Route : Type 0 where
  healthz media alexa : Route

pub record Pattern : Type 0 where
  pub method : String
  pub path : List ℕ
  pub route : Route

-- The patterns of `newRouter`.
abbrev pub routes : List Pattern
routes =
    record { method = "GET"; path = codes "/healthz"; route = healthz }
    ∷ record { method = "GET"; path = codes "/media/book.mp3"; route = media }
    ∷ record { method = "POST"; path = codes "/alexa"; route = alexa }
    ∷ []

-- What the mux makes of a method and a path.
pub data Match : Type 0 where
  handled_by : Route → Match
  redirected not_allowed not_found : Match

abbrev pub method_fits : String → String → Bool
method_fits pattern method = str_eq pattern method || (str_eq pattern "GET" && str_eq method "HEAD")

-- The mux's `pathUnescape` of an element: what cannot be unescaped stays as it is.
unfoldable pub unescape_element : List ℕ → List ℕ
unescape_element part = elim (unescape part) [ none ↦ part | some plain ↦ plain ]

-- The elements that the mux compares; the first is empty, before the slash of a rooted path.
unfoldable pub elements : List ℕ → List (List ℕ)
elements path = map unescape_element (split_slash path)

unfoldable pub parts_eq : List (List ℕ) → List (List ℕ) → Bool
parts_eq [] [] = true
parts_eq [] (q ∷ qs) = false
parts_eq (p ∷ ps) [] = false
parts_eq (p ∷ ps) (q ∷ qs) = bytes_eq p q && parts_eq ps qs

abbrev pub path_fits : List ℕ → List ℕ → Bool
path_fits pattern path = parts_eq (split_slash pattern) (elements path)

unfoldable pub find_route : List Pattern → String → List ℕ → Option Route
find_route [] method path = none
find_route (p ∷ patterns) method path =
    if method_fits p.method method && path_fits p.path path
    then some p.route
    else find_route patterns method path

-- `cleanPath` of net/http: the path is kept if it is rooted and cleaning changes at most a last slash.
abbrev pub is_rooted : List ℕ → Bool
is_rooted [] = false
is_rooted (c ∷ path) = c == b'/'

unfoldable pub is_clean : List ℕ → Bool
is_clean path =
    is_rooted path && (bytes_eq (clean path) path || bytes_eq (clean path ++ b'/' ∷ []) path)

unfoldable pub match_request : String → List ℕ → Match
match_request method path =
    if not (str_eq method "CONNECT") && not (is_clean path)
    then redirected
    else elim (find_route routes method path) [
      | some route ↦ handled_by route
      | none ↦
          if any (λ (p : Pattern). path_fits p.path path) routes then not_allowed else not_found
    ]

-- What is written, or the mux's redirection to the clean path.
pub data Reply : Type 0 where
  written : Response → Reply
  to_clean_path : Reply

-- What goes out, with the state after it; none means that the fuel of the
-- verification ran out.
pub record Exchange (x : Crypto) : Type 0 where
  pub state : State x
  pub reply : Option Reply

abbrev pub book_text : Book → BookText
book_text book = record { title = book.title; author = book.author }

module _ (x : Crypto) {Logger Metadata : Type 0} (env : Services)
    (v : Verifier x.CertPool HttpClient Logger) (os : Os Metadata) (dir : FilePath) (u : Unicode)
    (unmarshal_bool : String → Result Foreign Bool)
    (unmarshal_request : List ℕ → Result Foreign Request)
    (marshal : Envelope → Result Foreign (List ℕ)) (wrote : Option Foreign) (files : Files)
    (serve_content : ℕ → Content) (again : Result Foreign Info) (book : Book) where
  -- How an answer of `handleAlexa` is written.
  unfoldable pub write_answer : Option Answer → Option Reply
  write_answer none = none
  write_answer (some refused) = some (written reject_unverified)
  write_answer (some (answered e)) = some (written (write_alexa_response marshal wrote e).0)

  unfoldable pub run_route : Metadata → List ℕ → ℕ → Disk → Moment x → Incoming → Route → Exchange x
  run_route meta host rejected disk m r healthz = record {
    state = record { rejected = rejected; cache = m.later; disk = disk };
    reply = some (written handle_healthz);
  }
  run_route meta host rejected disk m r media = record {
    state = record { rejected = rejected; cache = m.later; disk = disk };
    reply = some (written (handle_media u files serve_content again book).response);
  }
  run_route meta host rejected disk m r alexa =
      let handled =
        handle_alexa x env v os dir u unmarshal_bool unmarshal_request (book_text book) meta host
          rejected disk m r in
      record { state = handled.state; reply = write_answer handled.answer }

  -- The handler that `newRouter` returns.
  unfoldable pub serve_http :
      Metadata → List ℕ → ℕ → Disk → Moment x → Incoming → String → List ℕ → Exchange x
  serve_http meta host rejected disk m r method path =
      let kept : State x = record { rejected = rejected; cache = m.later; disk = disk } in
      elim (match_request method path) [
        | handled_by route ↦ run_route meta host rejected disk m r route
        | redirected ↦ record { state = kept; reply = some to_clean_path }
        | not_allowed ↦ record {
          state = kept;
          reply = some (written (http_error "Method Not Allowed" 405));
        }
        | not_found ↦ record {
          state = kept;
          reply = some (written (http_error "404 page not found" 404));
        }
      ]
