-- ===== src/Provider/Latest.antt =====
-- What the map of last prices and the set of symbols hold.
use pricefeeder.Base.{
  or_else-none, ℕ, ◌-◌, ◌≤◌, ltb, false, ◌≡◌, refl, ◌∙◌, Option, none, some, List, [], ◌∷◌, Text,
  Dict, lookup, NodupKeys, lookup-merge, or_else, true, arith, map, All,
}
use pricefeeder.Float.{Float}
use pricefeeder.Types.{Symbol, Pair, RawPrice, Price, price_timeout}
use pricefeeder.Provider.{
  ProviderEvent, price_updates, stop_signal, ProviderLoop, provider_step, provider_run,
  PriceProvider, get_price, new_provider,
}

module _ {F : Type 0} where
  -- The price of a symbol in the last of the batches (the oldest first) that has one.
  abbrev pub latest : Symbol → List (Dict (RawPrice F)) → Option (RawPrice F)
  latest s [] = none
  latest s (b ∷ bs) = or_else (latest s bs) (lookup s b)

  pub lookup-provider_run :
      (s : Symbol) (bs : List (Dict (RawPrice F))) (l : ProviderLoop F)
      → l.running ≡ true
      → All NodupKeys bs
      → lookup s (provider_run (map price_updates bs) l).provider.last_prices
        ≡ or_else (latest s bs) (lookup s l.provider.last_prices)
  unfolding provider_run
  lookup-provider_run s [] l on u = refl
  lookup-provider_run s (b ∷ bs) l on (v, u) = ground (
    arith,
    lookup-provider_run s bs (provider_step (price_updates b) l),
    lookup-merge s b l.provider.last_prices v,
  )

  -- The name and the mapping of a provider never change.
  provider_step-keeps :
      (e : ProviderEvent F) (l : ProviderLoop F)
      → ((provider_step e l).provider.source_name ≡ l.provider.source_name)
        × ((provider_step e l).provider.pair_to_symbol_mapping ≡ l.provider.pair_to_symbol_mapping)
  unfolding provider_step
  provider_step-keeps stop_signal l = ground arith
  provider_step-keeps (price_updates b) l = ground arith

  pub provider_run-keeps :
      (events : List (ProviderEvent F)) (l : ProviderLoop F)
      → ((provider_run events l).provider.source_name ≡ l.provider.source_name)
        × ((provider_run events l).provider.pair_to_symbol_mapping
            ≡ l.provider.pair_to_symbol_mapping)
  unfolding provider_run
  provider_run-keeps [] l = (refl, refl)
  provider_run-keeps (e ∷ events) l =
      let (name, mapping) = provider_run-keeps events (provider_step e l) in
      let (name', mapping') = provider_step-keeps e l in (name ∙ name', mapping ∙ mapping')

module _ {F : Type 0} ⦃d : Float F⦄ where
  -- What the interface promises: abstain on a pair that is not mapped, and else the price of the
  -- last update that named the pair's symbol, valid if that update is less than 15 seconds old.
  abbrev pub answer : Text → Pair → ℕ → Option Symbol → (Symbol → Option (RawPrice F)) → Price F
  answer name pair now none last = record {
    pair = pair;
    price = d.neg (d.of_nat 1);
    source_name = name;
    valid = false;
  }
  answer name pair now (some s) last = elim (last s) [
    | none ↦ record { pair = pair; price = d.of_nat 0; source_name = name; valid = false }
    | some raw ↦ record {
      pair = pair;
      price = raw.price;
      source_name = name;
      valid = ltb (now - raw.update_time) price_timeout;
    }
  ]

  pub get_price-eq-answer :
      (now : ℕ) (p : PriceProvider F) (pair : Pair)
      → get_price now p pair
        ≡ answer p.source_name pair now
            (lookup pair p.pair_to_symbol_mapping)
            (λ s. lookup s p.last_prices)
  unfolding get_price
  get_price-eq-answer now p pair = ground arith

  -- From the start of a provider, after any batches of updates, `GetPrice` abstains on a pair that
  -- is not mapped; for a mapped pair it gives the price of the last batch that named the symbol,
  -- valid exactly if that batch is less than 15 seconds old, and an invalid zero if no batch did.
  pub get_price-latest :
      (name : Text) (mapping : Dict Symbol) (bs : List (Dict (RawPrice F))) (now : ℕ) (pair : Pair)
      → All NodupKeys bs
      → get_price now
          (provider_run (map price_updates bs) (new_provider name mapping)).provider
          pair
        ≡ answer name pair now (lookup pair mapping) (λ s. latest s bs)
  unfolding new_provider lookup
  get_price-latest name mapping bs now pair u =
      let start = new_provider name mapping in
      let (same_name, same_mapping) = provider_run-keeps (map price_updates bs) start in
      get_price-eq-answer now _ pair ∙ λ i.
      answer (same_name i) pair now (lookup pair (same_mapping i))
        (λ s. (lookup-provider_run s bs start refl u ∙ or_else-none (latest s bs)) i)

  -- A price only ages: while no update comes, a pair that is not valid at one moment is not valid at
  -- any later one, and its price stays what it is.
  pub get_price-expires :
      (p : PriceProvider F) (pair : Pair) (now later : ℕ)
      → now ≤ later
      → (get_price now p pair).valid ≡ false
      → get_price later p pair ≡ get_price now p pair
  unfolding get_price
  get_price-expires p pair now later h invalid = ground arith
