-- ===== src/System/Range.antt =====
-- How far a post can be from what the sources report.
use mathlib.Core.Path.{subst}
use mathlib.Core.List.{append-nil}
use pricefeeder.Base.{
  ◌≡◌, refl, ◌∙◌, sym, ◌⊎◌, inl, inr, false, Bool, List, [], ◌∷◌, ◌++◌, map, All, All-append, arith,
  Dict,
}
use pricefeeder.Float.{Float, IsIeee}
use pricefeeder.Types.{Pair, Price, RawPrice, Symbol, VotingPeriod}
use pricefeeder.Aggregate.Answers.{aggregate_price-NamesPair}
use pricefeeder.Feeder.{send_prices, handle_params_update, close}
use pricefeeder.System.{
  Phase, selecting, gathering, System, SystemStep, SystemReach, ask, updated, params_changed,
  period_began, pair_asked, prices_sent, stop_taken, start, next,
}
use pricefeeder.System.Refines.{posts_of, posts_of-append}
use pricefeeder.System.Posted.{NamesPair-ask}
use pricefeeder.System.Quotes.{
  Quoted, IsQuoted, IsBounded, step-IsQuoted, aggregate-InRange, gathered-IsBounded,
}

module _ {ℓ ℓ'} {A : Type ℓ} (P : A → Type ℓ') where
  replace-All :
      (before : List A) (p q : A) (after : List A)
      → All P (before ++ (p ∷ after))
      → (P p → P q)
      → All P (before ++ (q ∷ after))
  replace-All [] p q after (hp, h) f = (f hp, h)
  replace-All (b ∷ before) p q after (hb, h) f = (hb, replace-All before p q after h f)

module _ {F : Type 0} ⦃d : Float F⦄ where
  -- The updates that the providers took, each with the mapping of its provider.
  abbrev pub updates_of :
      {s t : System F} → SystemReach s t → List (Dict Symbol × Dict (RawPrice F))
  updates_of start = []
  updates_of (next reach (updated before after p batch here on unique)) =
      (p.provider.pair_to_symbol_mapping, batch) ∷ updates_of reach
  updates_of (next reach _) = updates_of reach

module _ {F : Type 0} ⦃d : Float F⦄ {is_finite : F → Bool} (laws : IsIeee F is_finite)
    (lo hi : Pair → F) where
  abbrev PhaseBounded : Phase F → Type 0
  PhaseBounded selecting = Unit
  PhaseBounded (gathering vp todo got) = All (IsBounded laws lo hi) got

  abbrev pub PostBounded : VotingPeriod × List (Price F) → Type 0
  PostBounded (vp, prices) = All (IsBounded laws lo hi) prices

  record Inv (t : System F) : Type 0 where
    stocked :
        ((t.feeder.running ≡ false) × (t.phase ≡ selecting)) ⊎ All (IsQuoted laws lo hi) t.providers
    gathered : PhaseBounded t.phase
    posts : All PostBounded (posts_of t.feeder.calls)

  step-Inv :
      {s t u : System F} (reach : SystemReach s t) (step : SystemStep t u)
      → All (Quoted laws lo hi) (updates_of (next reach step))
      → (All (Quoted laws lo hi) (updates_of reach) → Inv t)
      → Inv u
  unfolding handle_params_update close
  step-Inv {t = t} reach (updated before after p batch here on unique) (new, quoted) before_it =
      let h = before_it quoted in
      record {
        stocked = elim h.stocked [
          | inl stopped ↦ inl stopped
          | inr all ↦ inr (
              replace-All (IsQuoted laws lo hi) before p _ after
                (subst (All (IsQuoted laws lo hi)) here all)
                (λ old. step-IsQuoted laws lo hi batch p on unique old new))
        ];
        gathered = h.gathered;
        posts = h.posts;
      }
  step-Inv {t = t} reach (params_changed params on at_select) quoted before_it =
      let h = before_it quoted in
      record {
        stocked = elim h.stocked [ inl (off, _) ↦ absurd (ground arith) | inr all ↦ inr all ];
        gathered = h.gathered;
        posts = h.posts;
      }
  step-Inv {t = t} reach (period_began vp on at_select) quoted before_it =
      let h = before_it quoted in
      record {
        stocked = elim h.stocked [ inl (off, _) ↦ absurd (ground arith) | inr all ↦ inr all ];
        gathered = tt;
        posts = h.posts;
      }
  step-Inv {t = t} reach (pair_asked vp pair todo got asked price at_pair order found) quoted
        before_it =
      let h = before_it quoted in
      let named : price.pair ≡ pair =
        aggregate_price-NamesPair (map ask asked) pair price (NamesPair-ask pair asked) found in
      elim h.stocked [
        | inl (_, at_select) ↦ absurd (cc)
        | inr all ↦ record {
          stocked = inr all;
          gathered =
              All-append (IsBounded laws lo hi) got _ (subst PhaseBounded at_pair h.gathered) (
                gathered-IsBounded laws lo hi pair price named
                    (aggregate-InRange laws lo hi pair asked t.providers price order all found),
                tt,
              );
          posts = h.posts;
        }
      ]
  step-Inv {t = t} reach (prices_sent vp got at_end) quoted before_it =
      let h = before_it quoted in
      record {
        stocked = elim h.stocked [ inl (off, _) ↦ inl (off, refl) | inr all ↦ inr all ];
        gathered = tt;
        posts =
            subst (All PostBounded) (sym (posts_of-append t.feeder.calls (send_prices vp got ∷ [])))
              (All-append PostBounded (posts_of t.feeder.calls) _ h.posts
                (subst PhaseBounded at_end h.gathered, tt));
      }
  step-Inv {t = t} reach (stop_taken closing closed on at_select loops unique done) quoted
        before_it =
      let h = before_it quoted in
      record {
        stocked = inl (refl, at_select);
        gathered = h.gathered;
        posts =
            subst (All PostBounded)
              (sym (posts_of-append t.feeder.calls _ ∙ append-nil (posts_of t.feeder.calls)))
              h.posts;
      }

  reach-Inv :
      {s t : System F} (reach : SystemReach s t)
      → s.phase ≡ selecting
      → s.feeder.calls ≡ []
      → All (IsQuoted laws lo hi) s.providers
      → All (Quoted laws lo hi) (updates_of reach)
      → Inv t
  reach-Inv start at_select fresh stocked quoted = record {
    stocked = inr stocked;
    gathered = subst PhaseBounded (sym at_select) tt;
    posts = subst (λ calls. All PostBounded (posts_of calls)) (sym fresh) tt;
  }
  reach-Inv (next reach step) at_select fresh stocked quoted =
      step-Inv reach step quoted (reach-Inv reach at_select fresh stocked)

  -- From a feeder at its select that has posted nothing: if for the symbol of a pair the sources report, and the
  -- providers store at the start, only prices between the `lo` and the `hi` of the pair, none above half of the
  -- largest float64, then whatever the order in which the parts take their steps, each price of each post is an
  -- invalid 0 or lies between the `lo` and the `hi` of its pair.
  pub posts-IsBounded :
      {s t : System F} (reach : SystemReach s t)
      → s.phase ≡ selecting
      → s.feeder.calls ≡ []
      → All (IsQuoted laws lo hi) s.providers
      → All (Quoted laws lo hi) (updates_of reach)
      → All PostBounded (posts_of t.feeder.calls)
  posts-IsBounded reach at_select fresh stocked quoted =
      (reach-Inv reach at_select fresh stocked quoted).posts
