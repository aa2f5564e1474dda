-- ===== src/Feeder/Posts.antt =====
-- What the feeder posts for a voting period.
use mathlib.Core.Path.{ap₂}
use pricefeeder.Base.{
  ◌≡◌, refl, ◌∙◌, true, List, [], ◌∷◌, ◌++◌, map, All, arith, ok, some, ap, sym, ok-injective,
  if◌then◌else◌,
}
use pricefeeder.Float.{Float}
use pricefeeder.Types.{Pair, Price, Params, VotingPeriod}
use pricefeeder.Feeder.{
  FeederEvent, stop_received, params_received, period_received, send_prices, Feeder, gather_price,
  gather_prices, feeder_step, feeder_loop, run, new_feeder,
}

module _ {F : Type 0} ⦃d : Float F⦄ where
  -- The parameters that the last update gave.
  abbrev pub latest_params : Params → List (FeederEvent F) → Params
  latest_params params [] = params
  latest_params params (params_received new ∷ events) = latest_params new events
  latest_params params (stop_received ∷ events) = latest_params params events
  latest_params params (period_received vp get_price ∷ events) = latest_params params events

  abbrev pub NoStop : FeederEvent F → Type 0
  NoStop stop_received = ⊥
  NoStop (params_received params) = Unit
  NoStop (period_received vp get_price) = Unit

  pub loop-append :
      (es fs : List (FeederEvent F)) (f : Feeder F)
      → feeder_loop (es ++ fs) f ≡ feeder_loop fs (feeder_loop es f)
  unfolding feeder_loop
  loop-append [] fs f = refl
  loop-append (e ∷ es) fs f = loop-append es fs (feeder_step e f)

  step_keeps_running :
      (e : FeederEvent F) (f : Feeder F)
      → f.running ≡ true
      → NoStop e
      → (feeder_step e f).running ≡ true
  unfolding feeder_step
  step_keeps_running stop_received f on stopped = absurd stopped
  step_keeps_running (params_received new) f on _ = ground arith
  step_keeps_running (period_received vp get_price) f on _ = ground arith

  step_params :
      (new : Params) (f : Feeder F)
      → f.running ≡ true
      → (feeder_step (params_received new) f).params ≡ new
  unfolding feeder_step
  step_params new f on = ground arith

  step_period :
      (vp : VotingPeriod) (get_price : Pair → Price F) (f : Feeder F)
      → f.running ≡ true
      → (feeder_step (period_received vp get_price) f).params ≡ f.params
  unfolding feeder_step
  step_period vp get_price f on = ground arith

  pub loop-params :
      (es : List (FeederEvent F)) (f : Feeder F)
      → f.running ≡ true
      → All NoStop es
      → ((feeder_loop es f).params ≡ latest_params f.params es)
        × ((feeder_loop es f).running ≡ true)
  unfolding feeder_loop
  loop-params [] f on h = (refl, on)
  loop-params (stop_received ∷ es) f on (stopped, h) = absurd stopped
  loop-params (params_received new ∷ es) f on (_, h) =
      let g = feeder_step (params_received new) f in
      let (params, still_on) = loop-params es g (step_keeps_running _ f on tt) h in
      (params ∙ ap (λ q. latest_params q es) (step_params new f on), still_on)
  loop-params (period_received vp get_price ∷ es) f on (_, h) =
      let g = feeder_step (period_received vp get_price) f in
      let (params, still_on) = loop-params es g (step_keeps_running _ f on tt) h in
      (params ∙ ap (λ q. latest_params q es) (step_period vp get_price f on), still_on)

  -- What is posted for a pair: the provider's answer if it is valid, and else the answer with the
  -- price 0, on which the chain counts an abstention.
  abbrev pub reported : Price F → Price F
  reported answer = record {
    pair = answer.pair;
    price = if answer.valid then answer.price else d.of_nat 0;
    source_name = answer.source_name;
    valid = answer.valid;
  }

  pub gather_price-eq-reported :
      (get_price : Pair → Price F) (p : Pair) → gather_price get_price p ≡ reported (get_price p)
  unfolding gather_price
  gather_price-eq-reported get_price p = ground arith

  gather_prices-eq-reported :
      (get_price : Pair → Price F) (pairs : List Pair)
      → gather_prices get_price pairs ≡ map (λ p. reported (get_price p)) pairs
  unfolding gather_prices
  gather_prices-eq-reported get_price [] = refl
  gather_prices-eq-reported get_price (p ∷ pairs) =
      ap₂ ◌∷◌ (gather_price-eq-reported get_price p) (gather_prices-eq-reported get_price pairs)

  step-posts :
      (f : Feeder F) (params : Params) (vp : VotingPeriod) (get_price : Pair → Price F)
      → f.running ≡ true
      → f.params ≡ params
      → feeder_loop (period_received vp get_price ∷ []) f ≡ record f {
        calls = f.calls ++ (send_prices vp (map (λ p. reported (get_price p)) params.pairs) ∷ []);
      }
  unfolding feeder_loop feeder_step
  step-posts f params vp get_price on same =
      ground (arith, gather_prices-eq-reported get_price f.params.pairs)

  -- After a start with some parameters and any events short of a stop, a voting period posts once:
  -- one price for each pair of the last parameters, in their order, with the price 0 in place of an
  -- answer that is not valid. Nothing else of the feeder changes.
  pub loop-posts :
      (init : Params) (es : List (FeederEvent F)) (f : Feeder F) (vp : VotingPeriod)
      (get_price : Pair → Price F)
      → run (some init) new_feeder ≡ ok f
      → All NoStop es
      → feeder_loop (es ++ (period_received vp get_price ∷ [])) f ≡ record (feeder_loop es f) {
        calls =
            (feeder_loop es f).calls
            ++ (send_prices vp (map (λ p. reported (get_price p)) (latest_params init es).pairs)
                ∷ []);
      }
  unfolding run new_feeder
  loop-posts init es f vp get_price started h =
      let (same_params, on) = loop-params es f (ground arith) h in
      loop-append es (period_received vp get_price ∷ []) f
      ∙ step-posts (feeder_loop es f) (latest_params init es) vp get_price on (
          same_params
          ∙ ap (λ (q : Feeder F). latest_params q.params es) (sym (ok-injective started)))
