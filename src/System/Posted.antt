-- ===== src/System/Posted.antt =====
-- What every post of the parts together holds.
use mathlib.Core.Path.{subst}
use mathlib.Core.List.{append-nil}
use pricefeeder.Base.{
  ℕ, ◌≡◌, refl, ◌∙◌, ap, sym, ◌⊎◌, inl, inr, false, List, [], ◌∷◌, ◌++◌, map, All, All-append,
  arith,
}
use pricefeeder.Float.{Float}
use pricefeeder.Types.{Pair, Price, Params, VotingPeriod}
use pricefeeder.Provider.{ProviderLoop, get_price}
use pricefeeder.Aggregate.Answers.{answers_of, NamesPair, aggregate_price-NamesPair}
use pricefeeder.Feeder.{send_prices, gather_price, handle_params_update, close}
use pricefeeder.System.{
  Phase, selecting, gathering, System, SystemStep, SystemReach, ask, updated, params_changed,
  period_began, pair_asked, prices_sent, stop_taken, start, next,
}
use pricefeeder.System.Refines.{posts_of, posts_of-append}

abbrev pub IsTold : Params → List Params → Type 0
IsTold params [] = ⊥
IsTold params (q ∷ qs) = (params ≡ q) ⊎ IsTold params qs

module _ {F : Type 0} ⦃d : Float F⦄ where
  -- The parameters that the feeder held from the first state on.
  abbrev pub told : {s t : System F} → SystemReach s t → List Params
  told {s} start = s.feeder.params ∷ []
  told (next reach (params_changed params on at_select)) = params ∷ told reach
  told (next reach _) = told reach

  -- A price that is not valid is posted as 0.
  abbrev pub IsZeroed : Price F → Type 0
  IsZeroed r = r.valid ≡ false → r.price ≡ d.of_nat 0

  abbrev pub pair_of : Price F → Pair
  pair_of r = r.pair

  -- One price for each pair of parameters that the feeder held, in their order.
  abbrev pub IsPost : List Params → VotingPeriod × List (Price F) → Type 0
  IsPost params_told (vp, prices) =
      ((params : Params) × IsTold params params_told × (map (λ r. r.pair) prices ≡ params.pairs))
      × All IsZeroed prices

  abbrev PhaseOk : Params → Phase F → Type 0
  PhaseOk params selecting = Unit
  PhaseOk params (gathering vp todo got) =
      (map pair_of got ++ todo ≡ params.pairs) × All IsZeroed got

  pub NamesPair-ask :
      (pair : Pair) (asked : List (ℕ × ProviderLoop F))
      → All (NamesPair pair) (answers_of pair (map ask asked))
  unfolding get_price
  NamesPair-ask pair [] = tt
  NamesPair-ask pair ((now, p) ∷ asked) = (ground arith, NamesPair-ask pair asked)

  pub gather_price-IsZeroed :
      (price : Price F) (pair : Pair)
      → IsZeroed (gather_price (λ _. price) pair)
        × ((gather_price (λ _. price) pair).pair ≡ price.pair)
  unfolding gather_price
  gather_price-IsZeroed price pair = ground arith

  pub pairs-append :
      (got : List (Price F)) (r : Price F) (pair : Pair) (todo : List Pair)
      → r.pair ≡ pair
      → map pair_of (got ++ (r ∷ [])) ++ todo ≡ map pair_of got ++ (pair ∷ todo)
  pairs-append [] r pair todo e = ap (λ p. p ∷ todo) e
  pairs-append (g ∷ got) r pair todo e = ap (λ ps. g.pair ∷ ps) (pairs-append got r pair todo e)

  record Inv (params : Params) (t : System F) (told_params : List Params) : Type 0 where
    current : IsTold t.feeder.params told_params
    whole : PhaseOk t.feeder.params t.phase
    posts : All (IsPost told_params) (posts_of t.feeder.calls)

  told_later :
      (q : Params) (params : List Params) (posts : List (VotingPeriod × List (Price F)))
      → All (IsPost params) posts
      → All (IsPost (q ∷ params)) posts
  told_later q params [] h = tt
  told_later q params (post ∷ posts) (((p, was_told, same), zeroed), h) =
      (((p, inr was_told, same), zeroed), told_later q params posts h)

  step-Inv :
      {s t u : System F} (reach : SystemReach s t) (step : SystemStep t u)
      → Inv s.feeder.params t (told reach)
      → Inv s.feeder.params u (told (next reach step))
  unfolding handle_params_update close
  step-Inv reach (updated before after p batch here on unique) h = record {
    current = h.current;
    whole = h.whole;
    posts = h.posts;
  }
  step-Inv {s} {t} reach (params_changed params on at_select) h = record {
    current = inl refl;
    whole = subst (PhaseOk params) (sym at_select) tt;
    posts = told_later params (told reach) _ h.posts;
  }
  step-Inv reach (period_began vp on at_select) h = record {
    current = h.current;
    whole = (refl, tt);
    posts = h.posts;
  }
  step-Inv {s} {t} reach (pair_asked vp pair todo got asked price at_pair order found) h =
      let (same, zeroed) = subst (PhaseOk t.feeder.params) at_pair h.whole in
      let (zero, named) = gather_price-IsZeroed price pair in
      let for_pair : price.pair ≡ pair =
        aggregate_price-NamesPair (map ask asked) pair price (NamesPair-ask pair asked) found in
      record {
        current = h.current;
        whole = (
          pairs-append got _ pair todo (named ∙ for_pair) ∙ same,
          All-append IsZeroed got _ zeroed (zero, tt),
        );
        posts = h.posts;
      }
  step-Inv {s} {t} reach (prices_sent vp got at_end) h =
      let (same, zeroed) = subst (PhaseOk t.feeder.params) at_end h.whole in
      record {
        current = h.current;
        whole = tt;
        posts =
            subst (All (IsPost (told reach)))
              (sym (posts_of-append t.feeder.calls (send_prices vp got ∷ [])))
              (All-append (IsPost (told reach)) (posts_of t.feeder.calls) _ h.posts (
                ((t.feeder.params, h.current, sym (append-nil (map pair_of got)) ∙ same), zeroed),
                tt,
              ));
      }
  step-Inv {s} {t} reach (stop_taken closing closed on at_select loops unique done) h = record {
    current = h.current;
    whole = h.whole;
    posts =
        subst (All (IsPost (told reach)))
          (sym (posts_of-append t.feeder.calls _ ∙ append-nil (posts_of t.feeder.calls))) h.posts;
  }

  reach-Inv :
      {s t : System F} (reach : SystemReach s t)
      → s.phase ≡ selecting
      → s.feeder.calls ≡ []
      → Inv s.feeder.params t (told reach)
  reach-Inv {s} start at_select fresh = record {
    current = inl refl;
    whole = subst (PhaseOk s.feeder.params) (sym at_select) tt;
    posts = subst (λ calls. All (IsPost (s.feeder.params ∷ [])) (posts_of calls)) (sym fresh) tt;
  }
  reach-Inv (next reach step) at_select fresh =
      step-Inv reach step (reach-Inv reach at_select fresh)

  -- From a feeder at its select that has posted nothing: whatever the order in which the parts take
  -- their steps, each post has one price for each pair of parameters that the feeder was told, in
  -- their order, although updates come while the pairs are asked for, and each price that is not
  -- valid is 0.
  pub posts-IsPost :
      {s t : System F} (reach : SystemReach s t)
      → s.phase ≡ selecting
      → s.feeder.calls ≡ []
      → All (IsPost (told reach)) (posts_of t.feeder.calls)
  posts-IsPost reach at_select fresh = (reach-Inv reach at_select fresh).posts
