-- ===== src/Tick.antt =====
-- feeder/priceprovider/sources/tick_source.go: a source that fetches the prices at each tick and hands
-- them to its provider with the time of the fetch.
pub mod Delivered
pub mod Fresh
pub mod Closed
use pricefeeder.Base.{
  ℕ, suc, ◌*◌, ◌^◌, Option, none, some, List, [], ◌∷◌, ◌++◌, Text, Dict, insert, Result, ok, err,
  panic,
}
use pricefeeder.Types.{RawPrice}

-- `UpdateTick`, 8 seconds in nanoseconds.
abbrev pub update_tick : ℕ
update_tick = 8 * 10 ^ 9

module _ (F : Type 0) where
  abbrev pub Batch : Type 0
  Batch = Dict (RawPrice F)

  -- Where the loop stands: at its select, at the select that sends, or out of the loop. A panic of the
  -- fetch ends the program.
  pub data TickMode : Type 0 where
    waiting : TickMode
    sending : Batch → TickMode
    returned : TickMode
    crashed : TickMode

  pub data TickExit : Type 0 where
    done_closed tick_stopped : TickExit

  pub record TickSource : Type 0 where
    pub mode : TickMode
    pub sent : List Batch
    pub dropped : List Batch
    pub exits : List TickExit

  -- What a select takes: the stop signal, a tick with what the fetch at it returned and the readings of
  -- the clock after it, or the provider's receive.
  pub data TickEvent : Type 0 where
    stop_signal : TickEvent
    tick : Result (Dict F) → (ℕ → ℕ) → TickEvent
    received : TickEvent

module _ {F : Type 0} where
  unfoldable pub new_tick_source : TickSource F
  new_tick_source = record { mode = waiting; sent = []; dropped = []; exits = [] }

  -- The loop over the fetched prices: each gets its own reading of the clock.
  unfoldable pub stamp : (ℕ → ℕ) → Dict F → Batch F → Batch F
  stamp clock [] batch = batch
  stamp clock ((symbol, price) ∷ raw_prices) batch =
      stamp (λ i. clock (suc i)) raw_prices
        (insert symbol (record { price = price; update_time = clock 0 }) batch)

  -- The deferred calls, the last deferred first.
  leave : TickSource F → List (Batch F) → TickSource F
  leave s dropped = record s {
    mode = returned;
    dropped = dropped;
    exits = done_closed ∷ tick_stopped ∷ [];
  }

  fetched : Result (Dict F) → (ℕ → ℕ) → TickSource F → TickSource F
  fetched (ok raw_prices) clock s = record s { mode = sending (stamp clock raw_prices []) }
  fetched (err e) clock s = s
  fetched panic clock s = record s { mode = crashed }

  -- One select; `none` where it does not wait for the event.
  unfoldable pub tick_step : TickMode F → TickEvent F → TickSource F → Option (TickSource F)
  unfolding leave fetched
  tick_step waiting stop_signal s = some (leave s s.dropped)
  tick_step waiting (tick result clock) s = some (fetched result clock s)
  tick_step (sending batch) received s =
      some (record s { mode = waiting; sent = s.sent ++ (batch ∷ []) })
  tick_step (sending batch) stop_signal s = some (leave s (batch ∷ s.dropped))
  tick_step _ _ s = none

  unfoldable pub tick_run : List (TickEvent F) → TickSource F → Option (TickSource F)
  unfolding tick_step
  tick_run [] s = some s
  tick_run (event ∷ events) s = elim (tick_step s.mode event s) [
    | none ↦ none
    | some next ↦ tick_run events next
  ]

  -- `Close` returns when the loop is gone. `late` are the events that the loop takes before it takes the signal.
  unfoldable pub close : List (TickEvent F) → TickSource F → Option (TickSource F)
  close late s = tick_run (late ++ (stop_signal ∷ [])) s
