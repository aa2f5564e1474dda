-- ===== src/System.antt =====
-- The parts together, as cmd/root.go connects them: the feeder's loop (feeder/feeder.go) gathers
-- the prices of a voting period pair by pair from the aggregate (aggregateprovider.go), while the
-- loops of the providers (priceprovider.go) take the updates of their sources.
pub mod Spec
pub mod Answers
pub mod Refines
pub mod Posted
pub mod Quotes
pub mod Range
pub mod Completes
pub mod Stops
use mathlib.Core.List.{Perm}
use pricefeeder.Base.{ℕ, ◌≡◌, true, false, List, [], ◌∷◌, ◌++◌, map, All, ok, Dict, NodupKeys}
use pricefeeder.Float.{Float}
use pricefeeder.Types.{Pair, Price, RawPrice, Params, VotingPeriod}
use pricefeeder.Provider.{ProviderLoop, provider_step, price_updates, get_price}
use pricefeeder.Aggregate.{aggregate_price}
use pricefeeder.Aggregate.Closing.{Closing, close_all, loops}
use pricefeeder.Feeder.{Feeder, gather_price, send_prices, handle_params_update, close}

-- Where the feeder's goroutine stands: at the loop's select, or in the loop over the pairs with the
-- pairs still to ask for and the prices so far.
pub data Phase (F : Type 0) : Type 0 where
  selecting : Phase F
  gathering : VotingPeriod → List Pair → List (Price F) → Phase F

pub record System (F : Type 0) : Type 0 where
  pub feeder : Feeder F
  pub phase : Phase F
  pub providers : List (ProviderLoop F)

module _ {F : Type 0} ⦃d : Float F⦄ where
  -- A provider with the moment at which it is asked.
  abbrev pub ask : ℕ × ProviderLoop F → Pair → Price F
  ask (now, p) = get_price now p.provider

  -- One step of the feeder's goroutine or of a provider's. The aggregate asks its providers in any
  -- order, each at its own moment.
  pub data SystemStep (s : System F) : System F → Type 0 where
    updated :
        (before after : List (ProviderLoop F)) (p : ProviderLoop F) (batch : Dict (RawPrice F))
        → s.providers ≡ before ++ (p ∷ after)
        → p.running ≡ true
        → NodupKeys batch
        → SystemStep s
            (record s { providers = before ++ (provider_step (price_updates batch) p ∷ after) })
    params_changed :
        (params : Params)
        → s.feeder.running ≡ true
        → s.phase ≡ selecting
        → SystemStep s (record s { feeder = handle_params_update params s.feeder })
    period_began :
        (vp : VotingPeriod)
        → s.feeder.running ≡ true
        → s.phase ≡ selecting
        → SystemStep s (record s { phase = gathering vp s.feeder.params.pairs [] })
    pair_asked :
        (vp : VotingPeriod) (pair : Pair) (todo : List Pair) (got : List (Price F))
        (asked : List (ℕ × ProviderLoop F)) (price : Price F)
        → s.phase ≡ gathering vp (pair ∷ todo) got
        → Perm (map (λ a. a.1) asked) s.providers
        → (aggregate_price (map ask asked) pair).0 ≡ ok price
        → SystemStep s
            (record s { phase = gathering vp todo (got ++ (gather_price (λ _. price) pair ∷ [])) })
    prices_sent :
        (vp : VotingPeriod) (got : List (Price F))
        → s.phase ≡ gathering vp [] got
        → SystemStep s (record s {
          feeder = record (s.feeder) { calls = s.feeder.calls ++ (send_prices vp got ∷ []) };
          phase = selecting;
        })
    stop_taken :
        (closing : List (Closing F)) (closed : List (ProviderLoop F))
        → s.feeder.running ≡ true
        → s.phase ≡ selecting
        → loops closing ≡ s.providers
        → All (λ c. All NodupKeys c.1) closing
        → close_all closing ≡ ok closed
        → SystemStep s (record s { feeder = close s.feeder; providers = closed })

  pub data SystemReach (init : System F) : System F → Type 0 where
    start : SystemReach init init
    next : {s t : System F} → SystemReach init s → SystemStep s t → SystemReach init t
