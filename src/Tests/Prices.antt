-- ===== src/Tests/Prices.antt =====
-- Aggregation and the price providers (feeder/priceprovider) at concrete prices.
use mathlib.Core.List.Permᴰ
use pricefeeder.Base.{
  ℕ, ◌≡◌, refl, ◌⊎◌, inl, inr, keep, true, false, List, [], ◌∷◌, map, text, Dict, lookup, ok, arith,
}
use pricefeeder.Sample.{Number, pos, negsuc, nan, number_float, Number-IsIeee, root}
use pricefeeder.Float.{◌≼◌}
use pricefeeder.Types.{Pair, Price, RawPrice, Symbol}
use pricefeeder.Aggregate.{
  price_of, remove_outliers, mean_and_std_dev, sort_floats, at, aggregate_price, median, missing,
  ask_all, compute_consolidated_price,
}
use pricefeeder.Aggregate.Bounds.{aggregate_price-InRange}
use pricefeeder.Aggregate.Median.{IsMedian, median-IsMedian}
use pricefeeder.Aggregate.Order.Rounding.{aggregate_price-any_order}
use pricefeeder.Aggregate.Nan.{any_nan, aggregate_price_nan}
use pricefeeder.Provider.{
  PriceProvider, get_price, provider_run, new_provider, price_updates, ProviderEvent,
}
use pricefeeder.Provider.Latest.{get_price-latest, answer, latest}

abbrev btc : Pair
btc = text "ubtc:uusd"

abbrev quote : Number → Pair → Price Number
quote x pair = record { pair = pair; price = x; source_name = text "bitfinex"; valid = true }

abbrev abstain : Pair → Price Number
abstain pair = record { pair = pair; price = pos 0; source_name = text "okex"; valid = false }

abbrev four_providers : List (Pair → Price Number)
four_providers = quote (pos 10) ∷ quote (pos 12) ∷ abstain ∷ quote (pos 11) ∷ quote (pos 50) ∷ []

aggregate_price-InRange_example :
    (r : Price Number) × ((aggregate_price four_providers btc).0 ≡ ok r)
    × ((r.valid ≡ false) ⊎ ((pos 10 ≼ r.price) × (r.price ≼ pos 50)))
aggregate_price-InRange_example =
    aggregate_price-InRange Number-IsIeee (pos 10) (pos 50) four_providers btc (
      inr (refl, refl, refl),
      (inr (refl, refl, refl), (inl refl, (inr (refl, refl, refl), (inr (refl, refl, refl), tt)))),
    )

median-IsMedian_example :
    (m : Number) × (median (pos 7 ∷ pos 3 ∷ pos 5 ∷ pos 9 ∷ []) ≡ ok m)
    × IsMedian Number-IsIeee (pos 7 ∷ pos 3 ∷ pos 5 ∷ pos 9 ∷ []) m
median-IsMedian_example =
    median-IsMedian Number-IsIeee (pos 7 ∷ pos 3 ∷ pos 5 ∷ pos 9 ∷ []) (omega arith)
      (refl, (refl, (refl, (refl, tt))))

abbrev with_nan : List (Pair → Price Number)
with_nan = quote (pos 10) ∷ quote nan ∷ quote (pos 12) ∷ quote (pos 11) ∷ []

aggregate_price_nan_example : (aggregate_price with_nan btc).0 ≡ ok (missing (negsuc 0) btc)
unfolding ask_all price_of any_nan
aggregate_price_nan_example = aggregate_price_nan Number-IsIeee with_nan btc (omega arith) refl

-- The outlier 50 is dropped.
aggregate_price_test :
    (aggregate_price four_providers btc).0
    ≡ ok (record { pair = btc; price = pos 11; source_name = text "consolidated"; valid = true })
unfolding aggregate_price compute_consolidated_price remove_outliers mean_and_std_dev root median
    sort_floats keep at
aggregate_price_test = refl

abbrev mapping : Dict Symbol
mapping = (btc, text "tBTCUSD") ∷ (text "ueth:uusd", text "tETHUSD") ∷ []

abbrev batch : Number → ℕ → Dict (RawPrice Number)
batch x time = (text "tBTCUSD", record { price = x; update_time = time }) ∷ []

abbrev batches : List (Dict (RawPrice Number))
batches = batch (pos 20) 5 ∷ batch (pos 21) 8_000_000_005 ∷ []

get_price-latest_example :
    get_price 16_000_000_000
      (provider_run (map price_updates batches) (new_provider (text "bitfinex") mapping)).provider
      btc
    ≡ answer (text "bitfinex") btc 16_000_000_000 (lookup btc mapping) (λ s. latest s batches)
unfolding lookup
get_price-latest_example =
    get_price-latest (text "bitfinex") mapping batches 16_000_000_000 btc
      ((refl, tt), ((refl, tt), tt))

abbrev old_provider : PriceProvider Number
old_provider = record {
  source_name = text "bitfinex";
  pair_to_symbol_mapping = mapping;
  last_prices = batch (pos 20) 5;
}

abbrev updates : List (ProviderEvent Number)
updates = price_updates (batch (pos 20) 5) ∷ []

plus_comm : (x y : Number) → number_float.add x y ≡ number_float.add y x
plus_comm x y = ground arith

-- The third answer is an outlier.
abbrev four_valid : List (Pair → Price Number)
four_valid = quote (pos 10) ∷ quote (pos 14) ∷ quote (pos 90) ∷ quote (pos 12) ∷ []

abbrev swapped : List (Pair → Price Number)
swapped = quote (pos 14) ∷ quote (pos 10) ∷ quote (pos 90) ∷ quote (pos 12) ∷ []

aggregate_price-any_order_example :
    (aggregate_price four_valid btc).0 ≡ (aggregate_price swapped btc).0
unfolding ask_all mean_and_std_dev root price_of
aggregate_price-any_order_example =
    aggregate_price-any_order Number-IsIeee plus_comm btc four_valid swapped (Permᴰ.swap refl refl)
      (inr ((refl, (refl, (refl, (refl, tt)))), refl))
