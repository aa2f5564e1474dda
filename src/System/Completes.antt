-- ===== src/System/Completes.antt =====
-- A voting period can always be brought to its post.
use mathlib.Core.List.{Perm, append-nil}
use mathlib.Core.List.Perm
use mathlib.Core.Path.{subst}
use pricefeeder.Base.{ℕ, ◌≡◌, refl, ◌∙◌, ap, sym, true, List, [], ◌∷◌, ◌++◌, map}
use pricefeeder.Float.{Float}
use pricefeeder.Types.{Pair, Price, VotingPeriod}
use pricefeeder.Provider.{ProviderLoop}
use pricefeeder.Aggregate.Answers.{aggregate_price-NamesPair, aggregate_price_returns}
use pricefeeder.Feeder.{send_prices, gather_price}
use pricefeeder.System.{
  selecting, gathering, System, SystemReach, ask, period_began, pair_asked, prices_sent, start,
  next,
}
use pricefeeder.System.Posted.{NamesPair-ask, gather_price-IsZeroed, pair_of, pairs-append}

module _ {F : Type 0} ⦃d : Float F⦄ where
  all_at : ℕ → List (ProviderLoop F) → List (ℕ × ProviderLoop F)
  all_at now = map (λ p. (now, p))

  all_at-loops : (now : ℕ) (ps : List (ProviderLoop F)) → map (λ a. a.1) (all_at now ps) ≡ ps
  unfolding all_at
  all_at-loops now [] = refl
  all_at-loops now (p ∷ ps) = ap (λ qs. p ∷ qs) (all_at-loops now ps)

  -- The state after the post, with the same parameters and providers.
  abbrev pub after_post : System F → VotingPeriod → List (Price F) → System F
  after_post s vp prices = record s {
    feeder = record (s.feeder) { calls = s.feeder.calls ++ (send_prices vp prices ∷ []) };
    phase = selecting;
  }

  pub gather_rest :
      (now : ℕ) (vp : VotingPeriod) (todo : List Pair) (got : List (Price F)) {s t : System F}
      → SystemReach s t
      → t.phase ≡ gathering vp todo got
      → (prices : List (Price F)) × SystemReach s (after_post t vp prices)
        × (map pair_of prices ≡ map pair_of got ++ todo)
  gather_rest now vp [] got reach at_end =
      (got, next reach (prices_sent vp got at_end), sym (append-nil (map pair_of got)))
  gather_rest now vp (pair ∷ todo) got {s} {t} reach at_pair =
      let asked = all_at now t.providers in
      let (price, found) = aggregate_price_returns (map ask asked) pair in
      let (_, named) = gather_price-IsZeroed price pair in
      let for_pair =
        aggregate_price-NamesPair (map ask asked) pair price (NamesPair-ask pair asked) found in
      let order =
        subst (λ l. Perm l t.providers) (sym (all_at-loops now t.providers)) (Perm.refl _) in
      let (prices, reached, pairs) =
        gather_rest now vp todo (got ++ (gather_price (λ _. price) pair ∷ []))
          (next reach (pair_asked vp pair todo got asked price at_pair order found)) refl in
      (prices, reached, pairs ∙ pairs-append got _ pair todo (named ∙ for_pair))

  -- A running feeder at its select can take any voting period to its post, whatever the providers
  -- hold and however float64 rounds: no price makes the aggregate panic. The post has one price for
  -- each pair of the feeder's parameters, in their order, and then the feeder is at its select
  -- again.
  pub period_completes :
      (s : System F) (vp : VotingPeriod) (now : ℕ)
      → s.feeder.running ≡ true
      → s.phase ≡ selecting
      → (prices : List (Price F)) × SystemReach s (after_post s vp prices)
        × (map pair_of prices ≡ s.feeder.params.pairs)
  period_completes s vp now on at_select =
      gather_rest now vp s.feeder.params.pairs [] (next start (period_began vp on at_select)) refl
