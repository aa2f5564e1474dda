-- ===== src/Websocket.antt =====
-- feeder/eventstream/websocket.go: a websocket that connects with exponential backoff, forwards the
-- messages that it reads, and reconnects when a read fails.
pub mod Backoff
pub mod Forward
pub mod Dial
pub mod Closes
use pricefeeder.Base.{
  ℕ, zero, suc, ◌+◌, ◌*◌, Bool, true, false, List, [], ◌∷◌, ◌++◌, Text, ltb, if◌then◌else◌, Option,
  none, some,
}

-- How `connect` ends: with a connection, or by `Fatal`, which ends the process. Each comes with the
-- number of dials and the seconds slept.
pub data Connected : Type 0 where
  connected : ℕ → ℕ → Connected
  fatal : ℕ → ℕ → Connected
  out_of_fuel : Connected

-- The loop of `connect`. `dial n` tells whether the n-th dial, counted from 0, succeeds.
connect_loop : ℕ → (ℕ → Bool) → (retries delay slept : ℕ) → Connected
connect_loop zero dial retries delay slept = out_of_fuel
connect_loop (suc fuel) dial retries delay slept =
    let again = connect_loop fuel dial (retries + 1) (delay * 2) (slept + delay) in
    if dial retries
    then connected (retries + 1) slept
    else if ltb 10 (retries + 1)
    then fatal (retries + 1) slept
    else again

unfoldable pub connect : (ℕ → Bool) → Connected
unfolding connect_loop
connect dial = connect_loop 11 dial 0 1 0

-- Where the loop stands: reading, with bytes to forward, or gone.
pub data Reader : Type 0 where
  reading : Reader
  forwarding : Text → Reader
  done : Reader
  -- the process has ended
  dead : Reader

pub record Ws : Type 0 where
  pub reader : Reader
  pub connection_closed : Bool
  pub stopped : Bool
  -- what was read from the connections, and what the stream received
  pub read_bytes : List Text
  pub forwarded : List Text

-- What happens to the websocket.
pub data WsEvent : Type 0 where
  -- a message was read
  frame : Text → WsEvent
  -- a read failed; the function tells how the dials go if the loop reconnects
  read_failed : (ℕ → Bool) → WsEvent
  -- the stream receives from the channel
  received : WsEvent
  -- the inner select takes the stop signal
  stop_seen : WsEvent
  -- `close` is called: it closes the stop channel, and then sets the flag, upon which it closes the
  -- connection and reads fail
  stop_signalled closed_stored : WsEvent

reconnected : Connected → Reader
reconnected (connected dials slept) = reading
reconnected (fatal dials slept) = dead
reconnected out_of_fuel = dead

on_frame : Text → Reader → Ws → Ws
on_frame bytes reading w = record w {
  reader = forwarding bytes;
  read_bytes = w.read_bytes ++ (bytes ∷ []);
}
on_frame bytes reader w = w

after_failure : Bool → Connected → Reader
unfolding reconnected
after_failure true c = done
after_failure false c = reconnected c

on_read_failed : (ℕ → Bool) → Reader → Ws → Ws
unfolding after_failure
on_read_failed dial reading w = record w {
  reader = after_failure w.connection_closed (connect dial);
}
on_read_failed dial reader w = w

on_received : Reader → Ws → Ws
on_received (forwarding bytes) w = record w {
  reader = reading;
  forwarded = w.forwarded ++ (bytes ∷ []);
}
on_received reader w = w

-- The inner select takes the stop signal only once it was sent.
after_stop : Bool → Text → Reader
after_stop true bytes = done
after_stop false bytes = forwarding bytes

on_stop_seen : Reader → Ws → Ws
unfolding after_stop
on_stop_seen (forwarding bytes) w = record w { reader = after_stop w.stopped bytes }
on_stop_seen reader w = w

unfoldable pub ws_step : WsEvent → Ws → Ws
unfolding on_frame on_read_failed on_received on_stop_seen
ws_step (frame bytes) w = on_frame bytes w.reader w
ws_step (read_failed dial) w = on_read_failed dial w.reader w
ws_step received w = on_received w.reader w
ws_step stop_seen w = on_stop_seen w.reader w
ws_step stop_signalled w = record w { stopped = true }
ws_step closed_stored w = record w { connection_closed = true }

-- `close`, up to its wait for the loop.
unfoldable pub close : Ws → Ws
unfolding ws_step
close w = ws_step closed_stored (ws_step stop_signalled w)

-- What the channel of `message` holds out.
offered : Reader → Option Text
offered (forwarding bytes) = some bytes
offered _ = none

unfoldable pub message : Ws → Option Text
unfolding offered
message w = offered w.reader

unfoldable pub ws_run : List WsEvent → Ws → Ws
ws_run [] w = w
ws_run (e ∷ events) w = ws_run events (ws_step e w)

-- `NewWebsocket` and the first `connect` of the loop.
unfoldable pub new_websocket : (ℕ → Bool) → Ws
unfolding reconnected
new_websocket dial = record {
  reader = reconnected (connect dial);
  connection_closed = false;
  stopped = false;
  read_bytes = [];
  forwarded = [];
}
