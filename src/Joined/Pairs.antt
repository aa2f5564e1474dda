-- ===== src/Joined/Pairs.antt =====
-- The feeder's side of a run that is joined with the stream, and the pairs of its posts.
use mathlib.Core.Path.{subst}
use pricefeeder.Base.{◌≡◌, refl, inl, inr, List, [], ◌∷◌, ◌++◌, Text, Result, All, sym, true}
use pricefeeder.Float.{Float}
use pricefeeder.Types.{Price, Params, VotingPeriod, NewBlockJson}
use pricefeeder.System
use pricefeeder.System.{System, SystemStep, SystemReach, selecting}
use pricefeeder.System.Refines.{posts_of}
use pricefeeder.System.Posted.{IsTold, told, IsPost, posts-IsPost}
use pricefeeder.Joined.{
  Joined, IsOwn, stream_moves, system_moves, params_handed, period_handed, feeder_stops,
  JoinedReach, start, next,
}

IsTold-append : (p : Params) (ps qs : List Params) → IsTold p ps → IsTold p (ps ++ qs)
IsTold-append p [] qs h = absurd h
IsTold-append p (q ∷ ps) qs (inl e) = inl e
IsTold-append p (q ∷ ps) qs (inr h) = inr (IsTold-append p ps qs h)

IsTold-last : (p : Params) (ps : List Params) → IsTold p (ps ++ (p ∷ []))
IsTold-last p [] = inl refl
IsTold-last p (q ∷ ps) = inr (IsTold-last p ps)

module _ {F : Type 0} ⦃d : Float F⦄ where
  All-IsPost :
      (ps qs : List Params) (posts : List (VotingPeriod × List (Price F)))
      → ((p : Params) → IsTold p ps → IsTold p qs)
      → All (IsPost ps) posts
      → All (IsPost qs) posts
  All-IsPost ps qs [] sub h = tt
  All-IsPost ps qs ((vp, prices) ∷ posts) sub (((p, told_p, same), zeroed), h) =
      (((p, sub p told_p, same), zeroed), All-IsPost ps qs posts sub h)

  own-told :
      {s t u : System F} (reach : SystemReach s t) (step : SystemStep t u)
      → IsOwn step
      → told (System.next reach step) ≡ told reach
  own-told reach (System.updated before after p batch here on unique) own = refl
  own-told reach (System.pair_asked vp pair todo got asked price at_pair order found) own = refl
  own-told reach (System.prices_sent vp got at_end) own = refl
  own-told reach (System.params_changed params on at_select) own = absurd own
  own-told reach (System.period_began vp on at_select) own = absurd own
  own-told reach (System.stop_taken closing closed on at_select same unique done) own = absurd own

  module _ (unmarshal : Text → Result NewBlockJson) where
    -- The state of the feeder's side at the end of `Run`.
    abbrev first_system : {j : Joined F} → JoinedReach unmarshal j → System F
    first_system (start first providers reach on told_first silent) = record {
      feeder = record { params = first; running = true; calls = [] };
      phase = selecting;
      providers = providers;
    }
    first_system (next reach step) = first_system reach

    abbrev pub system_reach :
        {j : Joined F} (reach : JoinedReach unmarshal j) → SystemReach (first_system reach) j.system
    system_reach (start first providers reach on told_first silent) = System.start
    system_reach (next reach (stream_moves t step same_periods same_params same_stop)) =
        system_reach reach
    system_reach (next reach (system_moves u step own)) = System.next (system_reach reach) step
    system_reach (next reach (params_handed new full on at_select)) =
        System.next (system_reach reach) (System.params_changed new on at_select)
    system_reach (next reach (period_handed vp at_send on at_select)) =
        System.next (system_reach reach) (System.period_began vp on at_select)
    system_reach (next reach (feeder_stops closing closed on at_select same unique done off)) =
        System.next (system_reach reach)
          (System.stop_taken closing closed on at_select same unique done)

    -- The feeder holds no parameters but those that the stream handed over.
    told-handed :
        {j : Joined F} (reach : JoinedReach unmarshal j) (p : Params)
        → IsTold p (told (system_reach reach))
        → IsTold p j.stream.params_out
    told-handed (start first providers reach on told_first silent) p h =
        subst (IsTold p) (sym told_first) h
    told-handed (next reach (stream_moves t step same_periods same_params same_stop)) p h =
        subst (IsTold p) (sym same_params) (told-handed reach p h)
    told-handed (next reach (system_moves u step own)) p h =
        told-handed reach p (subst (IsTold p) (own-told (system_reach reach) step own) h)
    told-handed (next {j = j} reach (params_handed new full on at_select)) p (inl e) =
        subst (λ q. IsTold q (j.stream.params_out ++ (new ∷ []))) (sym e)
          (IsTold-last new j.stream.params_out)
    told-handed (next {j = j} reach (params_handed new full on at_select)) p (inr h) =
        IsTold-append p j.stream.params_out (new ∷ []) (told-handed reach p h)
    told-handed (next reach (period_handed vp at_send on at_select)) p h = told-handed reach p h
    told-handed (next reach (feeder_stops closing closed on at_select same unique done off)) p h =
        told-handed reach p h

    first_system_fresh :
        {j : Joined F} (reach : JoinedReach unmarshal j)
        → ((first_system reach).phase ≡ selecting) × ((first_system reach).feeder.calls ≡ [])
    first_system_fresh (start first providers reach on told_first silent) = (refl, refl)
    first_system_fresh (next reach step) = first_system_fresh reach

    -- Each post has one price for each pair of parameters that the stream handed over, and 0 for each that is not
    -- valid.
    pub joined-IsPost :
        {j : Joined F}
        → JoinedReach unmarshal j
        → All (IsPost j.stream.params_out) (posts_of j.system.feeder.calls)
    joined-IsPost {j} reach =
        let (at_select, fresh) = first_system_fresh reach in
        All-IsPost (told (system_reach reach)) j.stream.params_out (posts_of j.system.feeder.calls)
          (told-handed reach) (posts-IsPost (system_reach reach) at_select fresh)
