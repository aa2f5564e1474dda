-- ===== src/Joined.antt =====
-- The event stream (feeder/eventstream/stream.go) and the feeder with its providers (feeder/feeder.go,
-- feeder/priceprovider), joined by the two channels of the stream.
pub mod Pairs
pub mod Posts
use pricefeeder.Base.{
  ◌≡◌, true, false, some, none, List, [], ◌∷◌, ◌++◌, Text, Result, ok, All, NodupKeys,
}
use pricefeeder.Float.{Float}
use pricefeeder.Types.{Params, VotingPeriod, NewBlockJson}
use pricefeeder.Provider.{ProviderLoop}
use pricefeeder.Aggregate.Closing.{Closing, close_all, loops}
use pricefeeder.Feeder.{Feeder, handle_params_update, close}
use pricefeeder.Stream.{Stream, Step, Reach, sending, waiting}
use pricefeeder.System
use pricefeeder.System.{System, SystemStep, selecting, gathering}

pub record Joined (F : Type 0) : Type 0 where
  pub stream : Stream
  pub system : System F

module _ {F : Type 0} ⦃d : Float F⦄ where
  -- A step that is not a receive from the stream, nor the stop.
  abbrev pub IsOwn : {s t : System F} → SystemStep s t → Type 0
  IsOwn (System.updated before after p batch here on unique) = Unit
  IsOwn (System.pair_asked vp pair todo got asked price at_pair order found) = Unit
  IsOwn (System.prices_sent vp got at_end) = Unit
  IsOwn _ = ⊥

  module _ (unmarshal : Text → Result NewBlockJson) where
    -- A receive is a step of both sides, and so is the stop of the feeder, which closes the stream.
    pub data JoinedStep (j : Joined F) : Joined F → Type 0 where
      stream_moves :
          (t : Stream)
          → Step unmarshal j.stream t
          → t.periods_out ≡ j.stream.periods_out
          → t.params_out ≡ j.stream.params_out
          → t.stopped ≡ j.stream.stopped
          → JoinedStep j (record j { stream = t })
      system_moves :
          (u : System F) (step : SystemStep j.system u)
          → IsOwn step
          → JoinedStep j (record j { system = u })
      params_handed :
          (new : Params)
          → j.stream.buffer ≡ some new
          → j.system.feeder.running ≡ true
          → j.system.phase ≡ selecting
          → JoinedStep j (record {
            stream = record (j.stream) {
              buffer = none;
              params_out = j.stream.params_out ++ (new ∷ []);
            };
            system = record (j.system) { feeder = handle_params_update new j.system.feeder };
          })
      period_handed :
          (vp : VotingPeriod)
          → j.stream.voting_loop ≡ sending vp
          → j.system.feeder.running ≡ true
          → j.system.phase ≡ selecting
          → JoinedStep j (record {
            stream = record (j.stream) {
              voting_loop = waiting;
              periods_out = j.stream.periods_out ++ (vp ∷ []);
            };
            system = record (j.system) { phase = gathering vp j.system.feeder.params.pairs [] };
          })
      feeder_stops :
          (closing : List (Closing F)) (closed : List (ProviderLoop F))
          → j.system.feeder.running ≡ true
          → j.system.phase ≡ selecting
          → loops closing ≡ j.system.providers
          → All (λ c. All NodupKeys c.1) closing
          → close_all closing ≡ ok closed
          → j.stream.stopped ≡ false
          → JoinedStep j (record {
            stream = record (j.stream) { stopped = true };
            system = record (j.system) { feeder = close j.system.feeder; providers = closed };
          })

    -- From the end of `Run`: the feeder has received the first parameters and nothing else.
    pub data JoinedReach : Joined F → Type 0 where
      start :
          {s : Stream} (first : Params) (providers : List (ProviderLoop F))
          → Reach unmarshal s
          → s.stopped ≡ false
          → s.params_out ≡ first ∷ []
          → s.periods_out ≡ []
          → JoinedReach (record {
            stream = s;
            system = record {
              feeder = record { params = first; running = true; calls = [] };
              phase = selecting;
              providers = providers;
            };
          })
      next : {j k : Joined F} → JoinedReach j → JoinedStep j k → JoinedReach k
