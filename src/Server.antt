-- ===== src/Server.antt =====
-- server.go: `newHTTPServer`, and `serve` as a step relation.
--
-- `serve` runs beside a goroutine that calls `Server.Serve` and sends its result over a channel with
-- room for one. What `Server.Serve` and `Server.Shutdown` return, when they do, and the cancellation of
-- the context are steps that may happen in any order. As net/http documents, `Serve` gives
-- `ErrServerClosed` once the server is being shut down or closed, and another error before that.
-- `Shutdown` returns by its deadline, so a step that ends it is always there; time itself and the
-- log line are left out.
pub mod Orderly
pub mod Returns
mod Examples
use billy.Base.{ℕ, ◌*◌, ◌≡◌, Bool, true, false, Option, none, some}
use billy.Errors.{Foreign}
use billy.Timestamp.{second}

-- The time-outs of an `http.Server`, in nanoseconds.
pub record HttpServer : Type 0 where
  pub read_header_timeout : ℕ
  pub read_timeout : ℕ
  pub write_timeout : ℕ
  pub idle_timeout : ℕ

abbrev pub new_http_server : HttpServer
new_http_server = record {
  read_header_timeout = 10 * second;
  read_timeout = 30 * second;
  write_timeout = 30 * second;
  idle_timeout = 60 * second;
}

-- What `Server.Serve` returns.
pub data ServeError : Type 0 where
  server_closed : ServeError
  failed : Foreign → ServeError

-- What the goroutine sends.
abbrev pub served : ServeError → Option Foreign
served server_closed = none
served (failed cause) = some cause

-- Where `serve` stands.
pub data Phase : Type 0 where
  selecting shutting_down draining : Phase
  tearing : Foreign → Phase
  awaiting : Phase
  returned : Option Foreign → Phase

-- Where the goroutine stands.
pub data Acceptor : Type 0 where
  accepting : Acceptor
  sending : Option Foreign → Acceptor
  sent : Acceptor

-- The state of the `http.Server`: `Shutdown` closes the listeners first, and waits then.
pub data Connections : Type 0 where
  serving stopping drained torn_down : Connections

abbrev pub is_stopped : Connections → Bool
is_stopped serving = false
is_stopped stopping = true
is_stopped drained = true
is_stopped torn_down = true

-- `Serve` may return this in this state of the server.
abbrev pub gives : Connections → ServeError → Bool
gives serving server_closed = false
gives serving (failed cause) = true
gives stopping server_closed = true
gives stopping (failed cause) = false
gives drained server_closed = true
gives drained (failed cause) = false
gives torn_down server_closed = true
gives torn_down (failed cause) = false

pub record Service : Type 0 where
  pub phase : Phase
  pub acceptor : Acceptor
  -- What waits in the channel.
  pub errs : Option (Option Foreign)
  pub cancelled : Bool
  pub server : Connections

abbrev pub at : Phase → Acceptor → Option (Option Foreign) → Bool → Connections → Service
at p a errs c v = record { phase = p; acceptor = a; errs = errs; cancelled = c; server = v }

-- `serve` has started its goroutine, and the context is not yet cancelled.
abbrev pub started : Service
started = at selecting accepting none false serving

pub data Step : Service → Service → Type 0 where
  cancel :
      {p : Phase} {a : Acceptor} {errs : Option (Option Foreign)} {v : Connections}
      → Step (at p a errs false v) (at p a errs true v)
  serve_ends :
      {p : Phase} {errs : Option (Option Foreign)} {c : Bool} {v : Connections} (e : ServeError)
      → gives v e ≡ true
      → Step (at p accepting errs c v) (at p (sending (served e)) errs c v)
  send :
      {p : Phase} {c : Bool} {v : Connections} (e : Option Foreign)
      → Step (at p (sending e) none c v) (at p sent (some e) c v)
  -- The two cases of the `select`.
  receive :
      {a : Acceptor} {c : Bool} {v : Connections} (e : Option Foreign)
      → Step (at selecting a (some e) c v) (at (returned e) a none c v)
  see_done :
      {a : Acceptor} {errs : Option (Option Foreign)} {v : Connections}
      → Step (at selecting a errs true v) (at shutting_down a errs true v)
  -- The call of `Shutdown`, and what it returns.
  shut_down :
      {a : Acceptor} {errs : Option (Option Foreign)} {c : Bool} {v : Connections}
      → Step (at shutting_down a errs c v) (at draining a errs c stopping)
  drain :
      {a : Acceptor} {errs : Option (Option Foreign)} {c : Bool} {v : Connections}
      → Step (at draining a errs c v) (at awaiting a errs c drained)
  drain_fails :
      {a : Acceptor} {errs : Option (Option Foreign)} {c : Bool} {v : Connections} (cause : Foreign)
      → Step (at draining a errs c v) (at (tearing cause) a errs c v)
  -- `srv.Close`
  tear_down :
      {a : Acceptor} {errs : Option (Option Foreign)} {c : Bool} {v : Connections} (cause : Foreign)
      → Step (at (tearing cause) a errs c v) (at (returned (some cause)) a errs c torn_down)
  receive_last :
      {a : Acceptor} {c : Bool} {v : Connections} (e : Option Foreign)
      → Step (at awaiting a (some e) c v) (at (returned e) a none c v)

-- The states that are reached from the start.
pub data Reaches : Service → Type 0 where
  here : Reaches started
  next : {s t : Service} → Reaches s → Step s t → Reaches t
