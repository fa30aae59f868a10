-- ===== src/Server/Examples.antt =====
-- A run of `serve`, and instances of its theorems.
use billy.Base.{refl, inl, true, none, some}
use billy.Server.{
  Service, at, selecting, draining, awaiting, returned, accepting, sent, serving, stopping, drained,
  server_closed, Step, Reaches,
}
use billy.Server.Orderly.{IsOver, serve-IsOver}
use billy.Server.Returns.{Eventually, HasReturned, serve_returns}

abbrev interrupted : Service
interrupted = at selecting accepting none true serving

interrupted-Reaches : Reaches interrupted
interrupted-Reaches = Reaches.next Reaches.here Step.cancel

-- The server is drained, and its goroutine ends afterwards.
abbrev finished : Service
finished = at (returned none) sent none true drained

stopping-Reaches : Reaches (at draining accepting none true stopping)
stopping-Reaches = Reaches.next (Reaches.next interrupted-Reaches Step.see_done) Step.shut_down

sent-Reaches : Reaches (at awaiting sent (some none) true drained)
sent-Reaches =
    Reaches.next
      (Reaches.next (Reaches.next stopping-Reaches Step.drain) (Step.serve_ends server_closed refl))
      (Step.send none)

finished-Reaches : Reaches finished
finished-Reaches = Reaches.next sent-Reaches (Step.receive_last none)

serve-IsOver_example : IsOver none finished
serve-IsOver_example = serve-IsOver finished none finished-Reaches refl

serve_returns_example : Eventually HasReturned interrupted
serve_returns_example = serve_returns interrupted interrupted-Reaches (inl refl)
