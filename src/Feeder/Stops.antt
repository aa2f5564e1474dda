-- ===== src/Feeder/Stops.antt =====
-- The end of the feeder's loop.
use pricefeeder.Base.{◌≡◌, refl, ◌∙◌, ap, true, false, List, [], ◌∷◌, ◌++◌, All, arith}
use pricefeeder.Float.{Float}
use pricefeeder.Feeder.{
  FeederEvent, stop_received, params_received, period_received, close_event_stream,
  close_price_poster, close_price_provider, close_done, Feeder, feeder_step, feeder_loop,
}
use pricefeeder.Feeder.Posts.{NoStop, loop-append, loop-params}

module _ {F : Type 0} ⦃d : Float F⦄ where
  step_when_stopped : (e : FeederEvent F) (f : Feeder F) → f.running ≡ false → feeder_step e f ≡ f
  unfolding feeder_step
  step_when_stopped stop_received f off = ground arith
  step_when_stopped (params_received params) f off = ground arith
  step_when_stopped (period_received vp get_price) f off = ground arith

  stopped_stays :
      (events : List (FeederEvent F)) (f : Feeder F) → f.running ≡ false → feeder_loop events f ≡ f
  unfolding feeder_loop
  stopped_stays [] f off = refl
  stopped_stays (e ∷ events) f off =
      ap (feeder_loop events) (step_when_stopped e f off) ∙ stopped_stays events f off

  -- At the first stop signal the loop closes the event stream, the poster and the provider, in this
  -- order, then its `done` channel, once each; no later event changes anything or posts a price.
  pub loop-stops :
      (before after : List (FeederEvent F)) (f : Feeder F)
      → f.running ≡ true
      → All NoStop before
      → feeder_loop (before ++ (stop_received ∷ after)) f ≡ record (feeder_loop before f) {
        running = false;
        calls =
            (feeder_loop before f).calls
            ++ (close_event_stream ∷ close_price_poster ∷ close_price_provider ∷ close_done ∷ []);
      }
  unfolding feeder_loop feeder_step
  loop-stops before after f on h =
      let g = feeder_loop before f in
      let running : g.running ≡ true = (loop-params before f on h).1 in
      loop-append before (stop_received ∷ after) f
      ∙ stopped_stays after (feeder_step stop_received g) (ground arith)
      ∙ ground arith
