-- ===== src/System/Refines.antt =====
-- Every step of the parts is a step of the abstract view.
use mathlib.Core.Path.{subst, subst₂, ap₂}
use mathlib.Core.List.{Perm, map-append, append-nil}
use mathlib.Core.List.Perm
use pricefeeder.Base.{
  ◌≡◌, refl, ◌∙◌, ap, sym, true, false, List, [], ◌∷◌, ◌++◌, map, All, Dict, lookup, merge,
  NodupKeys, lookup-merge, arith, Bool, ℕ,
}
use pricefeeder.Float.{Float, IsIeee}
use pricefeeder.Types.{Pair, Price, RawPrice, VotingPeriod}
use pricefeeder.Provider.{ProviderLoop, provider_step, price_updates}
use pricefeeder.Provider.Latest.{lookup-provider_run, provider_run-keeps, get_price-eq-answer}
use pricefeeder.Provider.Shutdown.{left}
use pricefeeder.Aggregate.Closing.{Closing, close_all-inverts, all_left, loops, IsRunning}
use pricefeeder.Aggregate.Answers.{answers_of}
use pricefeeder.Feeder.{
  FeederCall, send_prices, close_event_stream, close_price_poster, close_price_provider, close_done,
  handle_params_update, close,
}
use pricefeeder.Feeder.Posts.{gather_price-eq-reported}
use pricefeeder.System
use pricefeeder.System.{System, SystemStep, SystemReach, ask}
use pricefeeder.System.Spec
use pricefeeder.System.Spec.{
  Source, View, ViewStep, ViewReach, learn, learn_all, answer_of, Allowed,
}
use pricefeeder.System.Answers.{aggregate_price-Allowed}

module _ {F : Type 0} where
  abbrev pub source_view : ProviderLoop F → Source F
  source_view p = record {
    name = p.provider.source_name;
    symbol_of = λ pair. lookup pair p.provider.pair_to_symbol_mapping;
    last = λ s. lookup s p.provider.last_prices;
  }

  abbrev pub posts_of : List (FeederCall F) → List (VotingPeriod × List (Price F))
  posts_of [] = []
  posts_of (send_prices vp prices ∷ calls) = (vp, prices) ∷ posts_of calls
  posts_of (_ ∷ calls) = posts_of calls

  abbrev pub view_of : System F → View F
  view_of s = record {
    params = s.feeder.params;
    is_open = s.feeder.running;
    phase = s.phase;
    sources = map source_view s.providers;
    posts = posts_of s.feeder.calls;
  }

  pub posts_of-append :
      (calls more : List (FeederCall F))
      → posts_of (calls ++ more) ≡ posts_of calls ++ posts_of more
  posts_of-append [] more = refl
  posts_of-append (send_prices vp prices ∷ calls) more =
      ap (λ ps. (vp, prices) ∷ ps) (posts_of-append calls more)
  posts_of-append (close_event_stream ∷ calls) more = posts_of-append calls more
  posts_of-append (close_price_poster ∷ calls) more = posts_of-append calls more
  posts_of-append (close_price_provider ∷ calls) more = posts_of-append calls more
  posts_of-append (close_done ∷ calls) more = posts_of-append calls more

  pub update_stored :
      (batch : Dict (RawPrice F)) (p : ProviderLoop F)
      → p.running ≡ true
      → provider_step (price_updates batch) p ≡ record p {
        provider = record (p.provider) { last_prices = merge batch p.provider.last_prices };
      }
  unfolding provider_step
  update_stored batch p on = ground arith

  source_view-update :
      (batch : Dict (RawPrice F)) (p : ProviderLoop F)
      → p.running ≡ true
      → NodupKeys batch
      → source_view (provider_step (price_updates batch) p) ≡ learn batch (source_view p)
  source_view-update batch p on unique = ap source_view (update_stored batch p on) ∙ λ i. record {
    name = p.provider.source_name;
    symbol_of = λ pair. lookup pair p.provider.pair_to_symbol_mapping;
    last = λ s. lookup-merge s batch p.provider.last_prices unique i;
  }

  source_view-left :
      (late : List (Dict (RawPrice F))) (p : ProviderLoop F)
      → p.running ≡ true
      → All NodupKeys late
      → source_view (left late p) ≡ learn_all (source_view p, late)
  source_view-left late p on unique =
      let (name, mapping) = provider_run-keeps (map price_updates late) p in
      λ i. record {
        name = name i;
        symbol_of = λ pair. lookup pair (mapping i);
        last = λ s. lookup-provider_run s late p on unique i;
      }

  abbrev pub late_of : Closing F → Source F × List (Dict (RawPrice F))
  late_of (p, late) = (source_view p, late)

  sources-left :
      (cs : List (Closing F))
      → All IsRunning (loops cs)
      → All (λ c. All NodupKeys c.1) cs
      → map source_view (all_left cs) ≡ map learn_all (map late_of cs)
  sources-left [] on unique = refl
  sources-left ((p, late) ∷ cs) (on_p, on) (unique_p, unique) =
      ap₂ ◌∷◌ (source_view-left late p on_p unique_p) (sources-left cs on unique)

  sources-late :
      (cs : List (Closing F)) → map (λ c. c.0) (map late_of cs) ≡ map source_view (loops cs)
  sources-late [] = refl
  sources-late (c ∷ cs) = ap (λ qs. source_view c.0 ∷ qs) (sources-late cs)

module _ {F : Type 0} ⦃d : Float F⦄ {is_finite : F → Bool} (laws : IsIeee F is_finite) where
  abbrev asked_sources : List (ℕ × ProviderLoop F) → List (ℕ × Source F)
  asked_sources = map (λ a. (a.0, source_view a.1))

  answers-asked :
      (pair : Pair) (asked : List (ℕ × ProviderLoop F))
      → answers_of pair (map ask asked) ≡ map (answer_of is_finite pair) (asked_sources asked)
  answers-asked pair [] = refl
  answers-asked pair ((now, p) ∷ asked) =
      ap₂ ◌∷◌ (get_price-eq-answer now p.provider pair) (answers-asked pair asked)

  loops-asked :
      (asked : List (ℕ × ProviderLoop F))
      → map (λ a. a.1) (asked_sources asked) ≡ map source_view (map (λ a. a.1) asked)
  loops-asked [] = refl
  loops-asked (a ∷ asked) = ap (λ qs. source_view a.1 ∷ qs) (loops-asked asked)

  Simulates : System F → System F → Type 0
  Simulates s t = ViewStep is_finite (view_of s) (view_of t)

  step_refines : {s t : System F} → SystemStep s t → Simulates s t
  unfolding Simulates handle_params_update close
  step_refines {s} (System.updated before after p batch here on unique) =
      let place = ap (map source_view) here ∙ map-append source_view before (p ∷ after) in
      let stored : map source_view (before ++ (provider_step (price_updates batch) p ∷ after))
          ≡ map source_view before ++ (learn batch (source_view p) ∷ map source_view after) =
        map-append source_view before (provider_step (price_updates batch) p ∷ after)
        ∙ ap (λ q. map source_view before ++ (q ∷ map source_view after))
            (source_view-update batch p on unique) in
      subst (λ qs. ViewStep is_finite (view_of s) (record (view_of s) { sources = qs }))
        (sym stored)
        (Spec.learned (map source_view before) (map source_view after) (source_view p) batch place)
  step_refines {s} (System.params_changed params on at_select) =
      Spec.params_changed params on at_select
  step_refines {s} (System.period_began vp on at_select) = Spec.period_began vp on at_select
  step_refines {s} (System.pair_asked vp pair todo got asked price at_pair order found) =
      let asks : Perm (map (λ a. a.1) (asked_sources asked)) (map source_view s.providers) =
        subst (λ l. Perm l (map source_view s.providers)) (sym (loops-asked asked))
          (Perm.map source_view order) in
      let allowed =
        subst (λ answers. Allowed is_finite answers pair price) (answers-asked pair asked)
          (aggregate_price-Allowed laws (map ask asked) pair price found) in
      subst
        (λ r.
          ViewStep is_finite (view_of s)
            (record (view_of s) { phase = System.gathering vp todo (got ++ (r ∷ [])) }))
        (sym (gather_price-eq-reported (λ _. price) pair))
        (Spec.quoted vp pair todo got (asked_sources asked) price at_pair asks allowed)
  step_refines {s} (System.prices_sent vp got at_end) =
      subst
        (λ posts.
          ViewStep is_finite (view_of s)
            (record (view_of s) { posts = posts; phase = System.selecting }))
        (sym (posts_of-append s.feeder.calls (send_prices vp got ∷ []))) (Spec.posted vp got at_end)
  step_refines {s} (System.stop_taken closing closed on at_select same unique done) =
      let (running, all) = close_all-inverts closing closed done in
      let sources : map learn_all (map late_of closing) ≡ map source_view closed =
        sym (ap (map source_view) all ∙ sources-left closing running unique) in
      let posts : posts_of s.feeder.calls ≡ posts_of (close s.feeder).calls =
        sym (posts_of-append s.feeder.calls _ ∙ append-nil (posts_of s.feeder.calls)) in
      subst₂
        (λ ps qs.
          ViewStep is_finite (view_of s)
            (record (view_of s) { is_open = false; posts = ps; sources = qs }))
        posts sources
        (Spec.closed (map late_of closing) on at_select
          (sources-late closing ∙ ap (map source_view) same))

  -- By the laws of IEEE 754, the parts together refine the abstract view: whatever the order in
  -- which the providers take their updates, the parameters change, voting periods begin, pairs are
  -- asked for and the feeder stops, the view of a state that they reach is one that the abstract
  -- steps reach from the view of the first state. There each price that is posted is allowed by the
  -- answers of the sources at the time of asking, one answer for each source, in any order.
  pub system_refines :
      {s t : System F} → SystemReach s t → ViewReach is_finite (view_of s) (view_of t)
  unfolding Simulates
  system_refines System.start = Spec.start
  system_refines (System.next reach step) = Spec.next (system_refines reach) (step_refines step)
