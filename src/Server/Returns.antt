-- ===== src/Server/Returns.antt =====
-- That `serve` returns, whichever order the steps take.
use billy.Base.{
  ℕ, ◌+◌, ◌<◌, ◌≡◌, refl, ◌⊎◌, inl, inr, arith, zero, suc, Bool, true, false, Option, none, some,
  Bool-cases,
}
use billy.Errors.{Foreign}
use billy.Server.{
  at, server_closed, Phase, selecting, shutting_down, draining, tearing, awaiting, returned,
  Acceptor, accepting, sending, sent, Connections, serving, stopping, drained, torn_down, Service,
  Step, Reaches,
}
use billy.Server.Orderly.{is_returned, AcceptorFits, IsOrderly, Step-IsOrderly, Reaches-IsOrderly}

-- Whichever steps are taken, a state with the property comes, and until then there is a step.
pub data Eventually (P : Service → Type 0) : Service → Type 0 where
  now : {s : Service} → P s → Eventually P s
  later :
      {s : Service} (t : Service)
      → Step s t
      → ((u : Service) → Step s u → Eventually P u)
      → Eventually P s

-- How many steps are left at most.
abbrev phase_left : Phase → ℕ
phase_left selecting = 4
phase_left shutting_down = 3
phase_left draining = 2
phase_left (tearing cause) = 1
phase_left awaiting = 1
phase_left (returned e) = 0

abbrev acceptor_left : Acceptor → ℕ
acceptor_left accepting = 2
acceptor_left (sending e) = 1
acceptor_left sent = 0

abbrev cancel_left : Bool → ℕ
cancel_left false = 1
cancel_left true = 0

abbrev left : Service → ℕ
left s = phase_left s.phase + acceptor_left s.acceptor + cancel_left s.cancelled

Step-decreases : {s t : Service} → Step s t → left t < left s
Step-decreases Step.cancel = omega arith
Step-decreases (Step.serve_ends e possible) = omega arith
Step-decreases (Step.send e) = omega arith
Step-decreases (Step.receive e) = omega arith
Step-decreases Step.see_done = omega arith
Step-decreases Step.shut_down = omega arith
Step-decreases Step.drain = omega arith
Step-decreases (Step.drain_fails cause) = omega arith
Step-decreases (Step.tear_down cause) = omega arith
Step-decreases (Step.receive_last e) = omega arith

abbrev is_accepting : Acceptor → Bool
is_accepting accepting = true
is_accepting (sending e) = false
is_accepting sent = false

-- The context is cancelled, or `Server.Serve` has returned.
abbrev pub IsEnding : Service → Type 0
IsEnding s = (s.cancelled ≡ true) ⊎ (is_accepting s.acceptor ≡ false)

Step-IsEnding : {s t : Service} → Step s t → IsEnding s → IsEnding t
Step-IsEnding Step.cancel ends = inl refl
Step-IsEnding (Step.serve_ends e possible) ends = inr refl
Step-IsEnding (Step.send e) ends = inr refl
Step-IsEnding (Step.receive e) ends = ends
Step-IsEnding Step.see_done ends = ends
Step-IsEnding Step.shut_down ends = ends
Step-IsEnding Step.drain ends = ends
Step-IsEnding (Step.drain_fails cause) ends = ends
Step-IsEnding (Step.tear_down cause) ends = ends
Step-IsEnding (Step.receive_last e) ends = ends

abbrev Moves : Service → Type 0
Moves s = (t : Service) × Step s t

-- In these two phases `serve` waits for the channel or the context.
selecting-Moves :
    (a : Acceptor) (errs : Option (Option Foreign)) (c : Bool) (v : Connections)
    → AcceptorFits selecting a errs v
    → IsEnding (at selecting a errs c v)
    → Moves (at selecting a errs c v)
selecting-Moves a errs true v f ends = (_, Step.see_done)
selecting-Moves accepting errs false v f (inl q) = cc
selecting-Moves accepting errs false v f (inr q) = cc
selecting-Moves (sending e) none false v f ends = (_, Step.send e)
selecting-Moves (sending e) (some e') false v (f, _) ends = (_, Step.receive e')
selecting-Moves sent none false v f ends = cc
selecting-Moves sent (some e) false v f ends = (_, Step.receive e)

awaiting-Moves :
    (a : Acceptor) (errs : Option (Option Foreign)) (c : Bool)
    → AcceptorFits awaiting a errs drained
    → Moves (at awaiting a errs c drained)
awaiting-Moves a (some e) c f = (_, Step.receive_last e)
awaiting-Moves accepting none c f = (_, Step.serve_ends server_closed refl)
awaiting-Moves (sending e) none c f = (_, Step.send e)
awaiting-Moves sent none c f = cc

moves :
    (p : Phase) (a : Acceptor) (errs : Option (Option Foreign)) (c : Bool) (v : Connections)
    → IsOrderly (at p a errs c v)
    → IsEnding (at p a errs c v)
    → is_returned p ≡ false
    → Moves (at p a errs c v)
moves selecting a errs c v (f, g) ends r = selecting-Moves a errs c v g ends
moves shutting_down a errs c v (f, g) ends r = (_, Step.shut_down)
moves draining a errs c v (f, g) ends r = (_, Step.drain)
moves (tearing cause) a errs c v (f, g) ends r = (_, Step.tear_down cause)
moves awaiting a errs c drained (f, g) ends r = awaiting-Moves a errs c g
moves awaiting a errs c serving ((_, q), g) ends r = cc
moves awaiting a errs c stopping ((_, q), g) ends r = cc
moves awaiting a errs c torn_down ((_, q), g) ends r = cc
moves (returned e) a errs c v f ends r = cc

abbrev pub HasReturned : Service → Type 0
HasReturned s = is_returned s.phase ≡ true

-- By recursion on a bound of the steps that are left.
returns : (n : ℕ) (s : Service) → left s < n → IsOrderly s → IsEnding s → Eventually HasReturned s
returns zero s enough f ends = absurd (omega arith)
returns (suc n) s enough f ends = elim (Bool-cases (is_returned s.phase)) [
  | inl r ↦ Eventually.now r
  | inr r ↦
      let (t, step) = moves s.phase s.acceptor s.errs s.cancelled s.server f ends r in
      Eventually.later t step (λ u taken.
        returns n u (omega (arith, Step-decreases taken)) (Step-IsOrderly taken f)
          (Step-IsEnding taken ends))
]

-- Once the context is cancelled or `Server.Serve` has returned, `serve` returns whichever order the
-- remaining steps take: until then there is always a step, and no run goes on for ever.
pub serve_returns : (s : Service) → Reaches s → IsEnding s → Eventually HasReturned s
serve_returns s r ends = returns (suc (left s)) s (omega arith) (Reaches-IsOrderly r) ends
