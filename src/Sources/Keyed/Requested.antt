-- ===== src/Sources/Keyed/Requested.antt =====
-- What coingecko.go and coinmarketcap.go return.
use pricefeeder.Base.{
  Bool, ◌≡◌, true, false, Option, none, some, List, [], ◌∷◌, Text, Dict, lookup, or_else, has,
  text_eq, if◌then◌else◌, Result, ok, err, panic,
}
use pricefeeder.Provider.{SymbolSet}
use pricefeeder.Sources.Keyed.{CoingeckoTicker, CmcTicker}

module _ {F : Type 0} where
  -- The price of the last entry of the data that has the slug.
  abbrev pub last_slug : Text → Dict (CmcTicker F) → Option F
  last_slug s [] = none
  last_slug s ((_, value) ∷ values) =
      or_else (last_slug s values)
        (if text_eq value.slug s then some value.quote.usd.price else none)

  abbrev pub price_at : Text → Dict (CoingeckoTicker F) → Option F
  price_at s result = elim (lookup s result) [ none ↦ none | some ticker ↦ some ticker.price ]

  -- What a source returned and counted, by how its fetch ended: `Came` says where a response comes
  -- from, and `quote` reads it.
  abbrev pub Counted :
      {R : Type 0}
      → SymbolSet
      → (R → Type 0)
      → (R → Text → Option F)
      → List Bool
      → Result (Dict F)
      → Type 0
  Counted {R} symbols Came quote counts (ok prices) =
      (counts ≡ true ∷ [])
      × (response : R) × Came response
      × ((s : Text) → lookup s prices ≡ (if has s symbols then quote response s else none))
  Counted symbols Came quote counts (err e) = counts ≡ false ∷ []
  Counted symbols Came quote counts panic = counts ≡ []
