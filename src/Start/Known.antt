-- ===== src/Start/Known.antt =====
-- Which exchanges the aggregate can be started with.
use mathlib.Core.Path.{ap₂, subst}
use pricefeeder.Base.{
  Bool, true, false, ◌&&◌, ◌||◌, ◌≡◌, refl, ◌⊎◌, inl, inr, Option-cases, none, some, List, [], ◌∷◌,
  Text, text, text_eq, Dict, lookup, ok, panic, map, arith, All, ok-injective, through, sym, ap,
}
use pricefeeder.Float.{Float}
use pricefeeder.Types.{Symbol}
use pricefeeder.Provider.{map_values, new_provider, SymbolSet, ProviderLoop}
use pricefeeder.Sources.{Fetched}
use pricefeeder.Tick.{new_tick_source}
use pricefeeder.Start.{SourceDeps, Started, source_of, new_price_provider, new_aggregate, config_of}

abbrev pub source_names : List Text
source_names =
    text "bitfinex"
    ∷ text "binance"
    ∷ text "coingecko"
    ∷ text "okex"
    ∷ text "gateio"
    ∷ text "coinmarketcap"
    ∷ text "bybit"
    ∷ text "uniswap"
    ∷ text "mexc"
    ∷ text "ascendex"
    ∷ []

unfoldable pub is_one_of : Text → List Text → Bool
is_one_of name [] = false
is_one_of name (n ∷ names) = let rest = is_one_of name names in text_eq name n || rest

-- Every exchange has the name of a source.
unfoldable pub all_known : Dict (Dict Symbol) → Bool
all_known [] = true
all_known ((name, _) ∷ exchanges) =
    let rest = all_known exchanges in is_one_of name source_names && rest

module _ {F : Type 0} ⦃d : Float F⦄ (deps : SourceDeps F) where
  known-source_of :
      (name config : Text)
      → ((is_one_of name source_names ≡ true)
          × (fetch : SymbolSet → Fetched F) × (source_of deps name config ≡ some fetch))
        ⊎ ((is_one_of name source_names ≡ false) × (source_of deps name config ≡ none))
  unfolding is_one_of source_of
  known-source_of name config = elim (Option-cases (source_of deps name config)) [
    | inl e ↦ inr (ground (arith, e), e)
    | inr (fetch, e) ↦ inl (ground (arith, e), fetch, e)
  ]

  -- What a started provider is for: its name, its pairs, and the symbols that its source is asked for.
  abbrev pub serves : Started F → Text × Dict Symbol × SymbolSet
  serves p = (p.loop.provider.source_name, p.loop.provider.pair_to_symbol_mapping, p.symbols)

  abbrev pub entry : Text × Dict Symbol → Text × Dict Symbol × SymbolSet
  entry (name, mapping) = (name, mapping, map_values mapping)

  new_price_provider-serves :
      (name : Text) (mapping : Dict Symbol) (config : Text)
      → ((is_one_of name source_names ≡ true)
          × (p : Started F) × (new_price_provider deps name mapping config ≡ ok p)
          × (serves p ≡ entry (name, mapping)))
        ⊎ ((is_one_of name source_names ≡ false)
            × (new_price_provider deps name mapping config ≡ panic))
  unfolding new_price_provider new_provider
  new_price_provider-serves name mapping config = elim (known-source_of name config) [
    | inl (known, fetch, e) ↦
        let p : Started F = record {
          fetch_prices = fetch;
          symbols = map_values mapping;
          source = new_tick_source;
          loop = new_provider name mapping;
        } in
        inl (known, p, rw e refl, refl)
    | inr (unknown, e) ↦ inr (unknown, rw e refl)
  ]

  -- The aggregate starts exactly if every exchange of the configuration has the name of a source, and
  -- panics if one does not. It then has one provider for each exchange, in the order of the map's iteration, with
  -- the exchange's name and pairs, whose source asks for the symbols of these pairs.
  pub new_aggregate-starts :
      (exchanges : Dict (Dict Symbol)) (configs : Dict Text)
      → ((all_known exchanges ≡ true)
          × (ps : List (Started F)) × (new_aggregate deps exchanges configs ≡ ok ps)
          × (map serves ps ≡ map entry exchanges))
        ⊎ ((all_known exchanges ≡ false) × (new_aggregate deps exchanges configs ≡ panic))
  unfolding new_aggregate all_known
  new_aggregate-starts [] configs = inl (refl, [], refl, refl)
  new_aggregate-starts ((name, mapping) ∷ exchanges) configs =
      elim (new_price_provider-serves name mapping (config_of deps (lookup name configs))) [
        | inr (unknown, e) ↦ inr (rw unknown refl, rw e refl)
        | inl (known, p, e, same) ↦ elim (new_aggregate-starts exchanges configs) [
          | inr (unknown, e') ↦ inr (rw (known, unknown) refl, rw (e, e') refl)
          | inl (all, ps, e', sames) ↦
              inl (rw (known, all) refl, p ∷ ps, rw (e, e') refl, ap₂ ◌∷◌ same sames)
        ]
      ]

  new_price_provider-alive :
      (name : Text) (mapping : Dict Symbol) (config : Text) (p : Started F)
      → new_price_provider deps name mapping config ≡ ok p
      → p.loop.running ≡ true
  unfolding new_price_provider new_provider
  new_price_provider-alive name mapping config p e = elim (known-source_of name config) [
    | inl (known, fetch, found) ↦
        let same = ok-injective (rw found at e) in sym (ap (λ (q : Started F). q.loop.running) same)
    | inr (unknown, found) ↦ absurd (ground (arith, rw found at e))
  ]

  -- The loops of the providers run from the start.
  pub new_aggregate-alive :
      (exchanges : Dict (Dict Symbol)) (configs : Dict Text) (ps : List (Started F))
      → new_aggregate deps exchanges configs ≡ ok ps
      → All (λ (l : ProviderLoop F). l.running ≡ true) (map (λ p. p.loop) ps)
  unfolding new_aggregate
  new_aggregate-alive [] configs ps e =
      subst (λ qs. All (λ (l : ProviderLoop F). l.running ≡ true) (map (λ p. p.loop) qs))
        (ok-injective e) tt
  new_aggregate-alive ((name, mapping) ∷ exchanges) configs ps e =
      let config = config_of deps (lookup name configs) in
      through (new_price_provider deps name mapping config) _ e λ p made e₁.
        through (new_aggregate deps exchanges configs) _ e₁ λ qs rest e₂.
          subst (λ rs. All (λ (l : ProviderLoop F). l.running ≡ true) (map (λ p. p.loop) rs))
            (ok-injective e₂)
            (
              new_price_provider-alive name mapping config p made,
              new_aggregate-alive exchanges configs qs rest,
            )
