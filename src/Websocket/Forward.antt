-- ===== src/Websocket/Forward.antt =====
-- No message is lost, repeated or reordered while the websocket runs.
use pricefeeder.Base.{
  ℕ, ◌≤◌, ◌≡◌, refl, ◌∙◌, true, false, Bool, List, [], ◌∷◌, ◌++◌, Text, arith, length, inl, inr, ap,
  ◌⊎◌, sym,
}
use mathlib.Core.Path.{subst}
use mathlib.Core.List.{append-nil}
use pricefeeder.Websocket.{
  Ws, WsEvent, Reader, reading, forwarding, done, dead, frame, read_failed, received, stop_seen,
  stop_signalled, closed_stored, ws_step, ws_run, new_websocket, on_frame, on_read_failed,
  on_received, on_stop_seen, reconnected, after_failure, after_stop, connect, Connected, connected,
  fatal, out_of_fuel,
}

-- What was read, from what was forwarded and the state of the loop. A loop that is done was told to
-- stop, and has dropped at most the one message that it held.
abbrev pub Accounted : Reader → Ws → Type 0
Accounted reading w = w.read_bytes ≡ w.forwarded
Accounted (forwarding bytes) w = w.read_bytes ≡ w.forwarded ++ (bytes ∷ [])
Accounted dead w = w.read_bytes ≡ w.forwarded
Accounted done w =
    ((w.stopped ≡ true) ⊎ (w.connection_closed ≡ true))
    × (dropped : List Text) × (w.read_bytes ≡ w.forwarded ++ dropped)
    × (length dropped ≤ 1)

reconnected-Accounted :
    (c : Connected) (w : Ws) → w.read_bytes ≡ w.forwarded → Accounted (reconnected c) w
unfolding reconnected
reconnected-Accounted (connected dials slept) w h = h
reconnected-Accounted (fatal dials slept) w h = h
reconnected-Accounted out_of_fuel w h = h

flagged-Accounted :
    (r : Reader) (w v : Ws)
    → v.read_bytes ≡ w.read_bytes
    → v.forwarded ≡ w.forwarded
    → (w.stopped ≡ true → v.stopped ≡ true)
    → (w.connection_closed ≡ true → v.connection_closed ≡ true)
    → Accounted r w
    → Accounted r v
flagged-Accounted reading w v same_read same_out stop close h = same_read ∙ h ∙ sym same_out
flagged-Accounted (forwarding bytes) w v same_read same_out stop close h =
    same_read ∙ h ∙ ap (λ l. l ++ (bytes ∷ [])) (sym same_out)
flagged-Accounted dead w v same_read same_out stop close h = same_read ∙ h ∙ sym same_out
flagged-Accounted done w v same_read same_out stop close (told, dropped, accounted, short) =
    (ground arith, dropped, same_read ∙ accounted ∙ ap (λ l. l ++ dropped) (sym same_out), short)

same-Accounted : (r : Reader) (w : Ws) → w.reader ≡ r → Accounted r w → Accounted w.reader w
same-Accounted r w here h = subst (λ q. Accounted q w) (sym here) h

frame-Accounted :
    (bytes : Text) (r : Reader) (w : Ws)
    → w.reader ≡ r
    → Accounted r w
    → Accounted (on_frame bytes r w).reader (on_frame bytes r w)
unfolding on_frame
frame-Accounted bytes reading w here h = ap (λ l. l ++ (bytes ∷ [])) h
frame-Accounted bytes other w here h = same-Accounted other w here h

after_failure-Accounted :
    (closed : Bool) (c : Connected) (w : Ws)
    → w.connection_closed ≡ closed
    → w.read_bytes ≡ w.forwarded
    → Accounted (after_failure closed c) w
unfolding after_failure
after_failure-Accounted true c w flag h =
    (inr flag, [], h ∙ sym (append-nil w.forwarded), omega arith)
after_failure-Accounted false c w flag h = reconnected-Accounted c w h

read_failed-Accounted :
    (dial : ℕ → Bool) (r : Reader) (w : Ws)
    → w.reader ≡ r
    → Accounted r w
    → Accounted (on_read_failed dial r w).reader (on_read_failed dial r w)
unfolding on_read_failed
read_failed-Accounted dial reading w here h =
    flagged-Accounted (after_failure w.connection_closed (connect dial)) w _ refl refl (λ c. c)
      (λ c. c) (after_failure-Accounted w.connection_closed (connect dial) w refl h)
read_failed-Accounted dial other w here h = same-Accounted other w here h

received-Accounted :
    (r : Reader) (w : Ws)
    → w.reader ≡ r
    → Accounted r w
    → Accounted (on_received r w).reader (on_received r w)
unfolding on_received
received-Accounted (forwarding bytes) w here h = h
received-Accounted other w here h = same-Accounted other w here h

after_stop-Accounted :
    (stopped : Bool) (bytes : Text) (w : Ws)
    → w.stopped ≡ stopped
    → w.read_bytes ≡ w.forwarded ++ (bytes ∷ [])
    → Accounted (after_stop stopped bytes) w
unfolding after_stop
after_stop-Accounted true bytes w flag h = (inl flag, bytes ∷ [], h, omega arith)
after_stop-Accounted false bytes w flag h = h

stop_seen-Accounted :
    (r : Reader) (w : Ws)
    → w.reader ≡ r
    → Accounted r w
    → Accounted (on_stop_seen r w).reader (on_stop_seen r w)
unfolding on_stop_seen
stop_seen-Accounted (forwarding bytes) w here h =
    flagged-Accounted (after_stop w.stopped bytes) w _ refl refl (λ c. c) (λ c. c)
      (after_stop-Accounted w.stopped bytes w refl h)
stop_seen-Accounted other w here h = same-Accounted other w here h

step-Accounted :
    (e : WsEvent) (w : Ws) → Accounted w.reader w → Accounted (ws_step e w).reader (ws_step e w)
unfolding ws_step
step-Accounted (frame bytes) w h = frame-Accounted bytes w.reader w refl h
step-Accounted (read_failed dial) w h = read_failed-Accounted dial w.reader w refl h
step-Accounted received w h = received-Accounted w.reader w refl h
step-Accounted stop_seen w h = stop_seen-Accounted w.reader w refl h
step-Accounted stop_signalled w h = flagged-Accounted w.reader w _ refl refl (λ _. refl) (λ c. c) h
step-Accounted closed_stored w h = flagged-Accounted w.reader w _ refl refl (λ c. c) (λ _. refl) h

run-Accounted :
    (events : List WsEvent) (w : Ws)
    → Accounted w.reader w
    → Accounted (ws_run events w).reader (ws_run events w)
unfolding ws_run
run-Accounted [] w h = h
run-Accounted (e ∷ events) w h = run-Accounted events (ws_step e w) (step-Accounted e w h)

-- From the start, through any reads, failures, reconnections and closings, the stream has received the
-- messages that were read in their order and none twice, all but the one that waits in the loop. Once
-- the loop is done it had been told to stop, and at most one message was dropped.
pub websocket-Accounted :
    (dial : ℕ → Bool) (events : List WsEvent)
    → let w = ws_run events (new_websocket dial) in Accounted w.reader w
unfolding new_websocket
websocket-Accounted dial events =
    run-Accounted events (new_websocket dial)
      (reconnected-Accounted (connect dial) (new_websocket dial) refl)
