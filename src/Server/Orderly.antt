-- ===== src/Server/Orderly.antt =====
-- What holds in every state that `serve` reaches, and what its result says.
use mathlib.Core.Path.{subst}
use billy.Base.{◌≡◌, refl, ◌⊎◌, inl, inr, Bool, true, false, Option, none, some}
use billy.Errors.{Foreign}
use billy.Server.{
  ServeError, server_closed, failed, served, Phase, selecting, shutting_down, draining, tearing,
  awaiting, returned, Acceptor, accepting, sending, sent, Connections, serving, stopping, drained,
  torn_down, is_stopped, gives, Service, Step, Reaches,
}

abbrev pub is_returned : Phase → Bool
is_returned selecting = false
is_returned shutting_down = false
is_returned draining = false
is_returned (tearing cause) = false
is_returned awaiting = false
is_returned (returned e) = true

-- The server is where the phase has brought it; a phase after the cancellation knows of it.
abbrev pub PhaseFits : Phase → Acceptor → Bool → Connections → Type 0
PhaseFits selecting a c v = v ≡ serving
PhaseFits shutting_down a c v = (c ≡ true) × (v ≡ serving)
PhaseFits draining a c v = (c ≡ true) × (v ≡ stopping)
PhaseFits (tearing cause) a c v = (c ≡ true) × (v ≡ stopping)
PhaseFits awaiting a c v = (c ≡ true) × (v ≡ drained)
PhaseFits (returned none) a c v = (c ≡ true) × (v ≡ drained)
PhaseFits (returned (some cause)) a c v = (a ≡ sent) ⊎ (v ≡ torn_down)

-- Only a server that was stopped makes the goroutine send nil.
abbrev pub Explains : Option Foreign → Connections → Type 0
Explains none v = is_stopped v ≡ true
Explains (some cause) v = Unit

-- The channel holds something exactly between the goroutine's send and the receipt.
abbrev pub AcceptorFits : Phase → Acceptor → Option (Option Foreign) → Connections → Type 0
AcceptorFits p accepting errs v = errs ≡ none
AcceptorFits p (sending e) errs v = (errs ≡ none) × Explains e v
AcceptorFits p sent none v = is_returned p ≡ true
AcceptorFits p sent (some e) v = Explains e v

abbrev pub IsOrderly : Service → Type 0
IsOrderly s =
    PhaseFits s.phase s.acceptor s.cancelled s.server
    × AcceptorFits s.phase s.acceptor s.errs s.server

phase_cancel :
    (p : Phase) (a : Acceptor) (v : Connections) → PhaseFits p a false v → PhaseFits p a true v
phase_cancel selecting a v f = f
phase_cancel shutting_down a v (c, q) = cc
phase_cancel draining a v (c, q) = cc
phase_cancel (tearing cause) a v (c, q) = cc
phase_cancel awaiting a v (c, q) = cc
phase_cancel (returned none) a v (c, q) = cc
phase_cancel (returned (some cause)) a v f = f

-- The goroutine moves on.
phase_acceptor :
    (p : Phase) (a b : Acceptor) (c : Bool) (v : Connections)
    → (a ≡ sent → b ≡ sent)
    → PhaseFits p a c v
    → PhaseFits p b c v
phase_acceptor selecting a b c v on f = f
phase_acceptor shutting_down a b c v on f = f
phase_acceptor draining a b c v on f = f
phase_acceptor (tearing cause) a b c v on f = f
phase_acceptor awaiting a b c v on f = f
phase_acceptor (returned none) a b c v on f = f
phase_acceptor (returned (some cause)) a b c v on (inl q) = inl (on q)
phase_acceptor (returned (some cause)) a b c v on (inr q) = inr q

Explains-served : (v : Connections) (e : ServeError) → gives v e ≡ true → Explains (served e) v
Explains-served v (failed cause) g = tt
Explains-served serving server_closed g = cc
Explains-served stopping server_closed g = refl
Explains-served drained server_closed g = refl
Explains-served torn_down server_closed g = refl

Explains-stopped :
    (e : Option Foreign) (v w : Connections) → is_stopped w ≡ true → Explains e v → Explains e w
Explains-stopped none v w stopped f = stopped
Explains-stopped (some cause) v w stopped f = tt

-- `serve` moves on without a receipt.
acceptor_phase :
    (p q : Phase) (a : Acceptor) (errs : Option (Option Foreign)) (v w : Connections)
    → is_returned p ≡ false
    → is_stopped w ≡ true
    → AcceptorFits p a errs v
    → AcceptorFits q a errs w
acceptor_phase p q accepting errs v w r stopped f = f
acceptor_phase p q (sending e) errs v w r stopped (empty, f) =
    (empty, Explains-stopped e v w stopped f)
acceptor_phase p q sent none v w r stopped f = cc
acceptor_phase p q sent (some e) v w r stopped f = Explains-stopped e v w stopped f

acceptor_cancelled :
    (a : Acceptor) (errs : Option (Option Foreign)) (v : Connections)
    → AcceptorFits selecting a errs v
    → AcceptorFits shutting_down a errs v
acceptor_cancelled accepting errs v f = f
acceptor_cancelled (sending e) errs v f = f
acceptor_cancelled sent none v f = cc
acceptor_cancelled sent (some e) v f = f

-- What was received was sent.
received :
    (p : Phase) (a : Acceptor) (e : Option Foreign) (v : Connections)
    → AcceptorFits p a (some e) v
    → (a ≡ sent) × Explains e v
received p accepting e v f = cc
received p (sending e') e v (f, g) = cc
received p sent e v f = (refl, f)

sent_and_received :
    (e : Option Foreign) (a : Acceptor) (v : Connections)
    → a ≡ sent
    → AcceptorFits (returned e) a none v
sent_and_received e accepting v q = refl
sent_and_received e (sending e') v q = cc
sent_and_received e sent v q = refl

receive-IsOrderly :
    (a : Acceptor) (e : Option Foreign) (c : Bool) (v : Connections)
    → PhaseFits selecting a c v
    → (a ≡ sent) × Explains e v
    → PhaseFits (returned e) a c v
receive-IsOrderly a none c serving f (q, g) = cc
receive-IsOrderly a none c stopping f (q, g) = cc
receive-IsOrderly a none c drained f (q, g) = cc
receive-IsOrderly a none c torn_down f (q, g) = cc
receive-IsOrderly a (some cause) c v f (q, g) = inl q

receive_last-IsOrderly :
    (a : Acceptor) (e : Option Foreign) (c : Bool) (v : Connections)
    → PhaseFits awaiting a c v
    → a ≡ sent
    → PhaseFits (returned e) a c v
receive_last-IsOrderly a none c v f q = f
receive_last-IsOrderly a (some cause) c v f q = inl q

pub Step-IsOrderly : {s t : Service} → Step s t → IsOrderly s → IsOrderly t
Step-IsOrderly (Step.cancel {p} {a} {errs} {v}) (f, g) = (phase_cancel p a v f, g)
Step-IsOrderly (Step.serve_ends {p} {errs} {c} {v} e possible) (f, g) = (
  phase_acceptor p accepting (sending (served e)) c v (λ q. cc) f,
  (g, Explains-served v e possible),
)
Step-IsOrderly (Step.send {p} {c} {v} e) (f, (_, g)) =
    (phase_acceptor p (sending e) sent c v (λ q. refl) f, g)
Step-IsOrderly (Step.receive {a} {c} {v} e) (f, g) =
    let r = received selecting a e v g in
    (receive-IsOrderly a e c v f r, sent_and_received e a v r.0)
Step-IsOrderly (Step.see_done {a} {errs} {v}) (f, g) = ((refl, f), acceptor_cancelled a errs v g)
Step-IsOrderly (Step.shut_down {a} {errs} {c} {v}) ((d, f), g) =
    ((d, refl), acceptor_phase shutting_down draining a errs v stopping refl refl g)
Step-IsOrderly (Step.drain {a} {errs} {c} {v}) ((d, f), g) =
    ((d, refl), acceptor_phase draining awaiting a errs v drained refl refl g)
Step-IsOrderly (Step.drain_fails {a} {errs} {c} {v} cause) ((d, f), g) =
    ((d, f), acceptor_phase draining (tearing cause) a errs v v refl (rw f) g)
Step-IsOrderly (Step.tear_down {a} {errs} {c} {v} cause) ((d, f), g) = (
  inr refl,
  acceptor_phase (tearing cause) (returned (some cause)) a errs v torn_down refl refl g,
)
Step-IsOrderly (Step.receive_last {a} {c} {v} e) (f, g) =
    let r = received awaiting a e v g in
    (receive_last-IsOrderly a e c v f r.0, sent_and_received e a v r.0)

pub Reaches-IsOrderly : {s : Service} → Reaches s → IsOrderly s
Reaches-IsOrderly Reaches.here = (refl, refl)
Reaches-IsOrderly (Reaches.next r step) = Step-IsOrderly step (Reaches-IsOrderly r)

-- The server after this result of `serve`.
abbrev pub IsOver : Option Foreign → Service → Type 0
IsOver none s = (s.cancelled ≡ true) × (s.server ≡ drained)
IsOver (some cause) s = (s.acceptor ≡ sent) ⊎ (s.server ≡ torn_down)

phase-IsOver :
    (e : Option Foreign) (s : Service)
    → PhaseFits (returned e) s.acceptor s.cancelled s.server
    → IsOver e s
phase-IsOver none s f = f
phase-IsOver (some cause) s f = f

-- If `serve` returns nil, the context was cancelled and `Shutdown` drained every connection. If it
-- returns an error, the goroutine has sent the result of `Server.Serve`, or the server was closed.
pub serve-IsOver :
    (s : Service) (e : Option Foreign) → Reaches s → s.phase ≡ returned e → IsOver e s
serve-IsOver s e r q =
    phase-IsOver e s
      (subst (λ p. PhaseFits p s.acceptor s.cancelled s.server) q (Reaches-IsOrderly r).0)
