-- ===== src/Feeder.antt =====
-- feeder/feeder.go: the feeder keeps the current parameters and posts the prices of their pairs when
-- a voting period starts. The event stream, the price provider and the price poster are interfaces:
-- the stream is the list of the events that the loop receives, a voting period comes with the answers
-- of the provider at that time, and calls of the poster and the closings are recorded.
pub mod Posts
pub mod Stops
use pricefeeder.Base.{
  Bool, true, false, List, [], ◌∷◌, ◌++◌, not, if◌then◌else◌, Result, ok, panic, Option, none, some,
}
use pricefeeder.Float.{Float}
use pricefeeder.Types.{Pair, Price, Params, VotingPeriod}

module _ (F : Type 0) where
  -- What the loop's select receives.
  pub data FeederEvent : Type 0 where
    stop_received : FeederEvent
    params_received : Params → FeederEvent
    period_received : VotingPeriod → (Pair → Price F) → FeederEvent

  -- What the loop calls, in order.
  pub data FeederCall : Type 0 where
    send_prices : VotingPeriod → List (Price F) → FeederCall
    close_event_stream close_price_poster close_price_provider close_done : FeederCall

  pub record Feeder : Type 0 where
    pub params : Params
    pub running : Bool
    pub calls : List FeederCall

module _ {F : Type 0} where
  -- `NewFeeder`: no parameters yet.
  unfoldable pub new_feeder : Feeder F
  new_feeder = record {
    params = record { pairs = []; vote_period_blocks = 0 };
    running = false;
    calls = [];
  }

  unfoldable pub handle_params_update : Params → Feeder F → Feeder F
  handle_params_update params f = record f { params = params }

  -- `initParamsOrDie`: the first parameters if they come before the timeout, and a panic if not.
  -- `Run` then starts the loop.
  unfoldable pub run : Option Params → Feeder F → Result (Feeder F)
  unfolding handle_params_update
  run none f = panic
  run (some init_params) f = ok (record (handle_params_update init_params f) { running = true })

  -- `close`, which is deferred by the loop.
  unfoldable pub close : Feeder F → Feeder F
  close f = record f {
    running = false;
    calls =
        f.calls
        ++ (close_event_stream ∷ close_price_poster ∷ close_price_provider ∷ close_done ∷ []);
  }

module _ {F : Type 0} ⦃d : Float F⦄ where
  -- The body of the loop over the pairs.
  unfoldable pub gather_price : (Pair → Price F) → Pair → Price F
  gather_price get_price p =
      let price = get_price p in
      if not price.valid then record price { price = d.of_nat 0 } else price

  gather_prices : (Pair → Price F) → List Pair → List (Price F)
  unfolding gather_price
  gather_prices get_price [] = []
  gather_prices get_price (p ∷ pairs) = gather_price get_price p ∷ gather_prices get_price pairs

  unfoldable pub handle_voting_period : VotingPeriod → (Pair → Price F) → Feeder F → Feeder F
  unfolding gather_prices
  handle_voting_period vp get_price f = record f {
    calls = f.calls ++ (send_prices vp (gather_prices get_price f.params.pairs) ∷ []);
  }

  unfoldable pub feeder_step : FeederEvent F → Feeder F → Feeder F
  unfolding close handle_params_update handle_voting_period
  feeder_step stop_received f = elim f.running [ true ↦ close f | false ↦ f ]
  feeder_step (params_received params) f = elim f.running [
    | true ↦ handle_params_update params f
    | false ↦ f
  ]
  feeder_step (period_received vp get_price) f = elim f.running [
    | true ↦ handle_voting_period vp get_price f
    | false ↦ f
  ]

  unfoldable pub feeder_loop : List (FeederEvent F) → Feeder F → Feeder F
  feeder_loop [] f = f
  feeder_loop (e ∷ events) f = feeder_loop events (feeder_step e f)
