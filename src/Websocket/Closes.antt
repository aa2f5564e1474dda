-- ===== src/Websocket/Closes.antt =====
-- `close` of feeder/eventstream/websocket.go.
use mathlib.Core.Path.{subst}
use pricefeeder.Base.{ℕ, ◌≡◌, refl, sym, true, Bool, List, [], ◌∷◌}
use pricefeeder.Websocket.{
  Ws, WsEvent, Reader, reading, forwarding, done, dead, read_failed, stop_seen, on_read_failed,
  on_stop_seen, after_failure, after_stop, close, ws_step, ws_run, connect,
}

-- The loop is gone.
abbrev pub IsOut : Reader → Type 0
IsOut done = Unit
IsOut dead = Unit
IsOut _ = ⊥

-- What takes a loop out once `close` was called: the read that fails on the closed connection, or
-- the stop signal at the select that forwards.
abbrev pub way_out : (ℕ → Bool) → Reader → List WsEvent
way_out dial reading = read_failed dial ∷ []
way_out dial (forwarding bytes) = stop_seen ∷ []
way_out dial _ = []

way_out-IsOut :
    (dial : ℕ → Bool) (r : Reader) (w : Ws)
    → w.reader ≡ r
    → w.stopped ≡ true
    → w.connection_closed ≡ true
    → IsOut (ws_run (way_out dial r) w).reader
      × ((ws_run (way_out dial r) w).forwarded ≡ w.forwarded)
unfolding ws_run ws_step on_read_failed on_stop_seen after_failure after_stop
way_out-IsOut dial reading w here stopped closed =
    subst
      (λ r.
        IsOut (on_read_failed dial r w).reader
        × ((on_read_failed dial r w).forwarded ≡ w.forwarded))
      (sym here) (subst (λ b. IsOut (after_failure b (connect dial))) (sym closed) tt, refl)
way_out-IsOut dial (forwarding bytes) w here stopped closed =
    subst (λ r. IsOut (on_stop_seen r w).reader × ((on_stop_seen r w).forwarded ≡ w.forwarded))
      (sym here) (subst (λ b. IsOut (after_stop b bytes)) (sym stopped) tt, refl)
way_out-IsOut dial done w here stopped closed = (subst IsOut (sym here) tt, refl)
way_out-IsOut dial dead w here stopped closed = (subst IsOut (sym here) tt, refl)

-- After `close` the loop leaves at its next event: a read that fails does not dial again, a message
-- that is about to be forwarded is dropped, and nothing is forwarded.
pub close-IsOut :
    (dial : ℕ → Bool) (w : Ws)
    → IsOut (ws_run (way_out dial w.reader) (close w)).reader
      × ((ws_run (way_out dial w.reader) (close w)).forwarded ≡ w.forwarded)
unfolding close ws_step
close-IsOut dial w = way_out-IsOut dial w.reader (close w) refl refl refl
