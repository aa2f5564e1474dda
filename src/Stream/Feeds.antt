-- ===== src/Stream/Feeds.antt =====
-- The event stream and the feeder together: what the feeder holds when the stream has nothing left
-- to tell.
use pricefeeder.Base.{
  ◌≡◌, refl, ◌∙◌, ap, sym, false, Option, none, some, ok, List, [], ◌∷◌, ◌++◌, Text, Result, All,
  arith, ok-injective,
}
use mathlib.Core.List.{append-nil}
use mathlib.Core.Path.{subst, ap₂}
use pricefeeder.Float.{Float}
use pricefeeder.Types.{Params, NewBlockJson}
use pricefeeder.Feeder.{
  FeederEvent, stop_received, params_received, period_received, Feeder, feeder_loop, new_feeder,
  run,
}
use pricefeeder.Feeder.Posts.{NoStop, latest_params, loop-params}
use pricefeeder.Stream.{Stream, Reach, waiting}
use pricefeeder.Stream.Updates.{Changes, signalled, of_option, of_loop, Reach-Changes}

-- The parameters among the events that the feeder's loop received.
abbrev pub told_by : {F : Type 0} → List (FeederEvent F) → List Params
told_by [] = []
told_by (params_received new ∷ events) = new ∷ told_by events
told_by (stop_received ∷ events) = told_by events
told_by (period_received vp get_price ∷ events) = told_by events

abbrev last_of : Params → List Params → Params
last_of p [] = p
last_of p (q ∷ qs) = last_of q qs

Changes-last :
    (p : Params) (ps : List Params) (prev final : Option Params)
    → Changes prev (p ∷ ps) final
    → some (last_of p ps) ≡ final
Changes-last p [] prev final (differs, e) = e
Changes-last p (q ∷ qs) prev final (differs, h) = Changes-last q qs (some p) final h

latest_params-told_by :
    {F : Type 0} ⦃d : Float F⦄ (p : Params) (es : List (FeederEvent F))
    → latest_params p es ≡ last_of p (told_by es)
latest_params-told_by p [] = refl
latest_params-told_by p (params_received new ∷ es) = latest_params-told_by new es
latest_params-told_by p (stop_received ∷ es) = latest_params-told_by p es
latest_params-told_by p (period_received vp get_price ∷ es) = latest_params-told_by p es

module _ (unmarshal : Text → Result NewBlockJson) {F : Type 0} ⦃d : Float F⦄ where
  -- A feeder that was started with the first parameters of the stream and then received the others
  -- in order, among any voting periods, holds the parameters that the stream fetched last, as soon
  -- as the stream has none left to hand over and while neither is stopped.
  pub feeder-in_step :
      {s : Stream} (init : Params) (es : List (FeederEvent F)) (f : Feeder F)
      → Reach unmarshal s
      → s.stopped ≡ false
      → s.buffer ≡ none
      → s.params_loop ≡ waiting
      → s.params_out ≡ init ∷ told_by es
      → run (some init) new_feeder ≡ ok f
      → All NoStop es
      → some (feeder_loop es f).params ≡ s.params
  unfolding run new_feeder
  feeder-in_step {s} init es f reach on empty at_select received started going =
      let all : signalled s ≡ init ∷ told_by es =
        ap₂ (λ b l. s.params_out ++ (of_option b ++ of_loop l)) empty at_select
        ∙ append-nil s.params_out
        ∙ received in
      let changes = subst (λ l. Changes none l s.params) all (Reach-Changes unmarshal reach on) in
      let (same, _) = loop-params es f (ground arith) going in
      ap some (
        same
        ∙ ap (λ (q : Feeder F). latest_params q.params es) (sym (ok-injective started))
        ∙ latest_params-told_by init es)
      ∙ Changes-last init (told_by es) none s.params changes
