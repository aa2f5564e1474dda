-- ===== src/Stream/Dial.antt =====
-- `Dial` and `newStream` of feeder/eventstream/stream.go, and the channels that the feeder reads.
use pricefeeder.Base.{Bool, Text, text, Result, ok, ◌>>=◌, Option}
use pricefeeder.Grpc.{Dialer, dial_grpc}
use pricefeeder.Types.{Params, VotingPeriod}
use pricefeeder.Websocket.{Ws, new_websocket}
use pricefeeder.Websocket.Dial.{WsDialer, new_dial}
use pricefeeder.Stream.{Stream, new_stream, LoopState}

abbrev pub new_block_subscribe : Text
new_block_subscribe =
    text
      "{\"jsonrpc\":\"2.0\",\"method\":\"subscribe\",\"id\":0,\"params\":{\"query\":\"tm.event='NewBlock'\"}}"

-- The stream with the connection of its oracle client and its websocket.
pub record Dialed (deps : Dialer) : Type 0 where
  pub oracle : deps.Conn
  pub websocket : Ws
  pub stream : Stream

unfoldable pub dial :
    (deps : Dialer)
    → WsDialer
    → (tendermint_rpc_endpoint grpc_endpoint : Text) → Bool
    → Result (Dialed deps)
dial deps ws_deps tendermint_rpc_endpoint grpc_endpoint enable_tls =
    dial_grpc deps grpc_endpoint enable_tls >>= λ conn. ok (record {
      oracle = conn;
      websocket = new_websocket (new_dial ws_deps tendermint_rpc_endpoint new_block_subscribe);
      stream = new_stream;
    })

-- What the two channels hold out: a change of the parameters is buffered, a voting period is what
-- the loop is about to send.
unfoldable pub params_update : Stream → Option Params
params_update s = s.buffer

offered : LoopState VotingPeriod → Option VotingPeriod
offered (LoopState.sending vp) = Option.some vp
offered _ = Option.none

unfoldable pub voting_period_started : Stream → Option VotingPeriod
unfolding offered
voting_period_started s = offered s.voting_loop
