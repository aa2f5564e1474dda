-- ===== src/Tests/Streaming.antt =====
-- The feeder, the event stream and the websocket (feeder/feeder.go, feeder/eventstream) at concrete
-- events.
use pricefeeder.Base.{
  ℕ, ◌+◌, ◌-◌, ◌^◌, ◌≤◌, ◌<◌, ◌≡◌, refl, ◌⊎◌, true, false, Bool, some, none, List, [], ◌∷◌, ◌++◌,
  map, Text, text, Result, ok, err, arith, ◌==◌, text_eq,
}
use pricefeeder.Sample.{Number, pos, number_float}
use pricefeeder.Types.{
  Pair, Price, VotingPeriod, Params, NewBlockJson, OracleParams, params_from_oracle_params, equal,
}
use pricefeeder.Feeder.{
  FeederEvent, params_received, period_received, send_prices, Feeder, new_feeder, run, feeder_loop,
}
use pricefeeder.Feeder.Posts.{latest_params, reported, loop-posts}
use pricefeeder.Stream.{
  Stream, new_stream, voting_period_of, fetch_params, is_news, tick_news, params_sent,
  params_received, close_called, Reach, start, next, sending,
}
use pricefeeder.Stream.Periods.{count_signals, voting_period_once}
use pricefeeder.Stream.Updates.{Changes, signalled, Reach-Changes}
use pricefeeder.Websocket.{
  connected, fatal, connect, WsEvent, frame, read_failed, received, ws_run, new_websocket,
}
use pricefeeder.Websocket.Backoff.{connect_backoff}
use pricefeeder.Stream.Closes.{Steps, voting_gone, params_gone, closed_loops_leave}
use pricefeeder.Websocket.Forward.{Accounted, websocket-Accounted}

abbrev btc : Pair
btc = text "ubtc:uusd"

abbrev pub params : ℕ → Params
params blocks = record { pairs = btc ∷ []; vote_period_blocks = blocks }

abbrev pub period : ℕ → VotingPeriod
period height = record { height = height }

abbrev answers : Pair → Price Number
answers pair = record {
  pair = pair;
  price = pos 30;
  source_name = text "consolidated";
  valid = true;
}

abbrev events : List (FeederEvent Number)
events = period_received (period 30) answers ∷ params_received (params 20) ∷ []

abbrev running : Feeder Number
running = record { params = params 30; running = true; calls = [] }

loop-posts_example :
    feeder_loop (events ++ (period_received (period 60) answers ∷ [])) running
    ≡ record (feeder_loop events running) {
      calls =
          (feeder_loop events running).calls
          ++ (send_prices
                (period 60)
                (map (λ p. reported (answers p)) (latest_params (params 30) events).pairs)
              ∷ []);
    }
unfolding run new_feeder
loop-posts_example = loop-posts (params 30) events running (period 60) answers refl (tt, (tt, tt))

voting_period_once_example :
    (count_signals (params 30) 100 30 ≡ 1)
    × (height : ℕ) × (100 ≤ height)
    × (height < 130)
    × (voting_period_of (some (params 30)) (ok height) ≡ ok (some (period (height + 1))))
voting_period_once_example =
    voting_period_once (params 30) 100 (omega arith) (omega arith) (omega arith)

connect_backoff_example :
    ((k : ℕ) × (k < 11)
      × ((i : ℕ) → i < k → (i == 3) ≡ false)
      × ((k == 3) ≡ true)
      × (connect (λ n. n == 3) ≡ connected (k + 1) (2 ^ k - 1)))
    ⊎ (((i : ℕ) → i < 11 → (i == 3) ≡ false) × (connect (λ n. n == 3) ≡ fatal 11 1023))
connect_backoff_example = connect_backoff λ n. n == 3

connect_test : connect (λ n. n == 3) ≡ connected 4 7
unfolding connect
connect_test = refl

abbrev dial : ℕ → Bool
dial n = true

abbrev reads : List WsEvent
reads = frame (text "block 1") ∷ received ∷ read_failed dial ∷ frame (text "block 2") ∷ []

websocket-Accounted_example : let w = ws_run reads (new_websocket dial) in Accounted w.reader w
websocket-Accounted_example = websocket-Accounted dial reads

unmarshal : Text → Result NewBlockJson
unmarshal msg = err (text "unexpected end of JSON input")

abbrev pub chain_params : OracleParams
chain_params = record { whitelist = btc ∷ []; vote_period = 30 }

abbrev told : Stream
told = record new_stream { params = some (params 30); params_out = params 30 ∷ [] }

told-Reach : Reach unmarshal told
unfolding new_stream fetch_params params_from_oracle_params is_news
told-Reach =
    next
      (next (next start (tick_news (ok chain_params) (params 30) refl refl refl))
        (params_sent (params 30) refl refl))
      (params_received (params 30) refl)

Reach-Changes_example : Changes none (signalled told) told.params
unfolding new_stream
Reach-Changes_example = Reach-Changes unmarshal told-Reach refl

-- The chain has other parameters now, which the second loop is about to send when the stream is closed.
abbrev closing : Stream
closing = record told {
  params = some (params 20);
  params_loop = sending (params 20);
  stopped = true;
}

closing-Reach : Reach unmarshal closing
unfolding new_stream fetch_params params_from_oracle_params is_news equal text_eq
closing-Reach =
    next
      (next told-Reach (
        tick_news (ok (record { whitelist = btc ∷ []; vote_period = 20 })) (params 20) refl refl
          refl))
      (close_called refl)

closed_loops_leave_example : Steps unmarshal closing (params_gone (voting_gone closing))
closed_loops_leave_example = closed_loops_leave unmarshal closing-Reach refl
