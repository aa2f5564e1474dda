-- ===== src/Joined/Posts.antt =====
-- What the feeder posts of what the stream signals.
use mathlib.Core.Path.{ap₂}
use mathlib.Core.List.{append-nil, map-append}
use pricefeeder.Base.{
  ◌≡◌, refl, ◌∙◌, ap, sym, false, Option, some, none, List, [], ◌∷◌, ◌++◌, map, Text, Result, All,
  arith,
}
use pricefeeder.Float.{Float}
use pricefeeder.Types.{Price, Params, VotingPeriod, NewBlockJson}
use pricefeeder.Feeder.{send_prices, handle_params_update}
use pricefeeder.Stream
use pricefeeder.Stream.{Stream, Reach, waiting, sending}
use pricefeeder.Stream.Updates.{Changes, signalled, of_option, of_loop, Reach-Changes}
use pricefeeder.Stream.Signals.{signals, held, pending, IsPeriod, periods-IsPeriod}
use pricefeeder.System
use pricefeeder.System.{Phase, selecting, gathering, System, SystemStep}
use pricefeeder.System.Posted.{IsPost}
use pricefeeder.Joined.Pairs.{joined-IsPost}
use pricefeeder.System.Refines.{posts_of, posts_of-append}
use pricefeeder.Joined.{
  Joined, IsOwn, JoinedStep, stream_moves, system_moves, params_handed, period_handed, feeder_stops,
  JoinedReach, start, next,
}

-- The last of the list, or what was before it.
abbrev last_or : Option Params → List Params → Option Params
last_or prev [] = prev
last_or prev (p ∷ ps) = last_or (some p) ps

last_or-append :
    (prev : Option Params) (ps : List Params) (p : Params) → last_or prev (ps ++ (p ∷ [])) ≡ some p
last_or-append prev [] p = refl
last_or-append prev (q ∷ ps) p = last_or-append (some q) ps p

Changes-last_or :
    (prev final : Option Params) (ps : List Params)
    → Changes prev ps final
    → last_or prev ps ≡ final
Changes-last_or prev final [] e = e
Changes-last_or prev final (p ∷ ps) (differs, h) = Changes-last_or (some p) final ps h

module _ {F : Type 0} ⦃d : Float F⦄ where
  -- The voting periods of the posts, and the one that is under way.
  abbrev pub posted_periods : List (VotingPeriod × List (Price F)) → List VotingPeriod
  posted_periods = map (λ post. post.0)

  abbrev pub under_way : Phase F → List VotingPeriod
  under_way selecting = []
  under_way (gathering vp todo got) = vp ∷ []

  abbrev pub taken : System F → List VotingPeriod
  taken s = posted_periods (posts_of s.feeder.calls) ++ under_way s.phase

  own-taken : {s t : System F} (step : SystemStep s t) → IsOwn step → taken t ≡ taken s
  own-taken (System.updated before after p batch here on unique) own = refl
  own-taken {s} (System.pair_asked vp pair todo got asked price at_pair order found) own =
      ap (λ ph. posted_periods (posts_of s.feeder.calls) ++ under_way ph) (sym at_pair)
  own-taken {s} (System.prices_sent vp got at_end) own =
      append-nil (posted_periods (posts_of (s.feeder.calls ++ (send_prices vp got ∷ []))))
      ∙ ap posted_periods (posts_of-append s.feeder.calls (send_prices vp got ∷ []))
      ∙ map-append (λ post. post.0) (posts_of s.feeder.calls) ((vp, got) ∷ [])
      ∙ ap (λ ph. posted_periods (posts_of s.feeder.calls) ++ under_way ph) (sym at_end)
  own-taken (System.params_changed params on at_select) own = absurd own
  own-taken (System.period_began vp on at_select) own = absurd own
  own-taken (System.stop_taken closing closed on at_select same unique done) own = absurd own

  own-params :
      {s t : System F} (step : SystemStep s t) → IsOwn step → t.feeder.params ≡ s.feeder.params
  own-params (System.updated before after p batch here on unique) own = refl
  own-params (System.pair_asked vp pair todo got asked price at_pair order found) own = refl
  own-params (System.prices_sent vp got at_end) own = refl
  own-params (System.params_changed params on at_select) own = absurd own
  own-params (System.period_began vp on at_select) own = absurd own
  own-params (System.stop_taken closing closed on at_select same unique done) own = absurd own

  module _ (unmarshal : Text → Result NewBlockJson) where
    -- The stream's side of a run.
    abbrev pub stream_reach : {j : Joined F} → JoinedReach unmarshal j → Reach unmarshal j.stream
    stream_reach (start first providers reach on told silent) = reach
    stream_reach (next reach (stream_moves t step same_periods same_params same_stop)) =
        Stream.next (stream_reach reach) step
    stream_reach (next reach (system_moves u step own)) = stream_reach reach
    stream_reach (next reach (params_handed new full on at_select)) =
        Stream.next (stream_reach reach) (Stream.params_received new full)
    stream_reach (next reach (period_handed vp at_send on at_select)) =
        Stream.next (stream_reach reach) (Stream.period_sent vp at_send)
    stream_reach (next reach (feeder_stops closing closed on at_select same unique done off)) =
        Stream.next (stream_reach reach) (Stream.close_called off)

    record Inv (j : Joined F) : Type 0 where
      same_periods : taken j.system ≡ j.stream.periods_out
      same_params : some j.system.feeder.params ≡ last_or none j.stream.params_out

    abbrev Held : Joined F → Type 0
    Held j = j.stream.stopped ≡ false → Inv j

    step-Held : {j k : Joined F} → JoinedStep unmarshal j k → Held j → Held k
    unfolding handle_params_update
    step-Held (stream_moves t step same_periods same_params same_stop) h on =
        let inv = h (sym same_stop ∙ on) in
        record {
          same_periods = inv.same_periods ∙ sym same_periods;
          same_params = inv.same_params ∙ ap (last_or none) (sym same_params);
        }
    step-Held (system_moves u step own) h on =
        let inv = h on in
        record {
          same_periods = own-taken step own ∙ inv.same_periods;
          same_params = ap some (own-params step own) ∙ inv.same_params;
        }
    step-Held {j} (params_handed new full running at_select) h on = record {
      same_periods = (h on).same_periods;
      same_params = sym (last_or-append none j.stream.params_out new);
    }
    step-Held {j} (period_handed vp at_send running at_select) h on =
        let inv = h on in
        let posts = posted_periods (posts_of j.system.feeder.calls) in
        let before : posts ≡ j.stream.periods_out =
          sym (append-nil posts)
          ∙ ap (λ ph. posts ++ under_way ph) (sym at_select)
          ∙ inv.same_periods in
        record { same_periods = ap (λ l. l ++ (vp ∷ [])) before; same_params = inv.same_params }
    step-Held (feeder_stops closing closed running at_select same unique done off) h on =
        absurd (ground arith)

    reach-Held : {j : Joined F} → JoinedReach unmarshal j → Held j
    reach-Held (start first providers reach off told silent) on = record {
      same_periods = sym silent;
      same_params = ap (last_or none) (sym told);
    }
    reach-Held (next reach step) on = step-Held step (reach-Held reach) on

    -- From the end of the feeder's `Run` and until it stops, whatever the order in which all parts take their
    -- steps: there is one post for each voting period that the messages of the chain gave, in their order, but for
    -- the one under way and the one that waits to be received. Each is the block after one that a message announced,
    -- and its number is divided by the vote period of parameters that the stream held. Each post has one price for each pair of parameters
    -- that the stream handed over, and 0 for each price that is not valid.
    pub joined-posts :
        {j : Joined F} (reach : JoinedReach unmarshal j)
        → j.stream.stopped ≡ false
        → (taken j.system ++ pending j.stream.voting_loop ≡ signals unmarshal (stream_reach reach))
          × All
              (IsPeriod unmarshal (held unmarshal (stream_reach reach)))
              (signals unmarshal (stream_reach reach))
          × All (IsPost j.stream.params_out) (posts_of j.system.feeder.calls)
    joined-posts {j} reach on =
        let (sent, periods) = periods-IsPeriod unmarshal (stream_reach reach) on in
        (
          ap (λ l. l ++ pending j.stream.voting_loop) (reach-Held reach on).same_periods ∙ sent,
          periods,
          joined-IsPost unmarshal reach,
        )

    -- From the end of the feeder's `Run` and until it stops: as soon as the stream has no parameters left to
    -- hand over, the feeder holds those that the stream fetched last.
    pub joined-params :
        {j : Joined F}
        → JoinedReach unmarshal j
        → j.stream.stopped ≡ false
        → j.stream.buffer ≡ none
        → j.stream.params_loop ≡ waiting
        → some j.system.feeder.params ≡ j.stream.params
    joined-params {j} reach on empty at_select =
        let all : signalled j.stream ≡ j.stream.params_out =
          ap₂ (λ b l. j.stream.params_out ++ (of_option b ++ of_loop l)) empty at_select
          ∙ append-nil j.stream.params_out in
        (reach-Held reach on).same_params
        ∙ ap (last_or none) (sym all)
        ∙ Changes-last_or none j.stream.params (signalled j.stream)
            (Reach-Changes unmarshal (stream_reach reach) on)
