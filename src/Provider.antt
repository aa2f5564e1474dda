-- ===== src/Provider.antt =====
-- feeder/priceprovider/priceprovider.go: a price provider keeps the last prices that its source
-- sent, and answers for the pairs that are mapped to symbols of the source.
pub mod Latest
pub mod Symbols
pub mod Shutdown
use pricefeeder.Base.{
  ℕ, ◌-◌, Bool, true, false, ◌&&◌, Option, none, some, List, [], ◌∷◌, ◌++◌, Text, Dict, lookup,
  insert, merge, ltb, map, Result, ok, panic,
}
use pricefeeder.Float.{Float}
use pricefeeder.Types.{Symbol, Pair, RawPrice, Price, price_timeout}

-- A set of symbols, `map[Symbol]struct{}`.
abbrev pub SymbolSet : Type 0
SymbolSet = Dict (Unit {0})

unfoldable pub map_values : Dict Symbol → SymbolSet
map_values [] = []
map_values ((pair, symbol) ∷ m) = insert symbol tt (map_values m)

module _ {F : Type 0} where
  -- `time.Since` of a moment that lies ahead is negative; here it is 0, which is below the timeout
  -- as well.
  unfoldable pub is_valid : ℕ → RawPrice F → Bool → Bool
  is_valid now price found = found && ltb (now - price.update_time) price_timeout

module _ (F : Type 0) where
  pub record PriceProvider : Type 0 where
    pub source_name : Text
    pub pair_to_symbol_mapping : Dict Symbol
    pub last_prices : Dict (RawPrice F)

  -- What the loop of a provider waits for.
  pub data ProviderEvent : Type 0 where
    stop_signal : ProviderEvent
    price_updates : Dict (RawPrice F) → ProviderEvent

  -- The calls that the loop makes when it returns.
  pub data ProviderExit : Type 0 where
    source_closed done_closed : ProviderExit

  -- The provider with its loop: whether the loop runs, and its calls on the way out.
  pub record ProviderLoop : Type 0 where
    pub provider : PriceProvider
    pub running : Bool
    pub exits : List ProviderExit

module _ {F : Type 0} where
  unfoldable pub new_provider : Text → Dict Symbol → ProviderLoop F
  new_provider name mapping = record {
    provider = record { source_name = name; pair_to_symbol_mapping = mapping; last_prices = [] };
    running = true;
    exits = [];
  }

  -- The deferred calls run in reverse order.
  unfoldable pub provider_step : ProviderEvent F → ProviderLoop F → ProviderLoop F
  provider_step stop_signal l = elim l.running [
    | true ↦ record l { running = false; exits = source_closed ∷ done_closed ∷ [] }
    | false ↦ l
  ]
  provider_step (price_updates updates) l =
      let stored = record (l.provider) { last_prices = merge updates l.provider.last_prices } in
      elim l.running [ true ↦ record l { provider = stored } | false ↦ l ]

  unfoldable pub provider_run : List (ProviderEvent F) → ProviderLoop F → ProviderLoop F
  unfolding provider_step
  provider_run [] l = l
  provider_run (e ∷ events) l = provider_run events (provider_step e l)

  -- `Close`: it closes the stop channel, which panics if that is closed already, and returns when the
  -- loop is gone. `late` are the updates that the loop takes before it takes the signal.
  unfoldable pub close : List (Dict (RawPrice F)) → ProviderLoop F → Result (ProviderLoop F)
  close late l = elim l.running [
    | true ↦ ok (provider_run (map price_updates late ++ (stop_signal ∷ [])) l)
    | false ↦ panic
  ]

module _ {F : Type 0} ⦃d : Float F⦄ where
  -- A missing key reads as the zero price.
  zero_price : RawPrice F
  zero_price = record { price = d.of_nat 0; update_time = 0 }

  raw_or_zero : Option (RawPrice F) → RawPrice F
  unfolding zero_price
  raw_or_zero none = zero_price
  raw_or_zero (some raw) = raw

  abbrev pub is_found : Option (RawPrice F) → Bool
  is_found none = false
  is_found (some raw) = true

  unfoldable pub get_price : ℕ → PriceProvider F → Pair → Price F
  unfolding is_valid raw_or_zero
  get_price now p pair = elim (lookup pair p.pair_to_symbol_mapping) [
    | none ↦ record {
      pair = pair;
      price = d.neg (d.of_nat 1);
      source_name = p.source_name;
      valid = false;
    }
    | some symbol ↦
        let price = raw_or_zero (lookup symbol p.last_prices) in
        record {
          pair = pair;
          price = price.price;
          source_name = p.source_name;
          valid = is_valid now price (is_found (lookup symbol p.last_prices));
        }
  ]
