-- ===== src/Sources/Lists/Unfiltered.antt =====
-- What binance.go returns: the prices of the tickers that it asked for, without a filter.
use pricefeeder.Base.{
  ◌≡◌, refl, ◌∙◌, false, Option, none, some, List, [], ◌∷◌, ◌++◌, Text, text, text_eq, Dict, lookup,
  insert, lookup-insert, or_else, or_else-none, if◌then◌else◌, Result, ok, err, panic, ◌>>=◌, arith,
}
use pricefeeder.Provider.{SymbolSet}
use pricefeeder.Sources.{Web, Fetched, download, respond, succeeded, for_tickers}
use pricefeeder.Sources.Csv.{binance_symbol_csv, chop_last}
use pricefeeder.Sources.Lists.{BinanceTicker, binance_put, binance_price_update}

module _ {F : Type 0} where
  -- The price in the last ticker of a symbol.
  abbrev pub last_ticker : Text → List (BinanceTicker F) → Option F
  last_ticker s [] = none
  last_ticker s (ticker ∷ tickers) =
      or_else (last_ticker s tickers) (if text_eq ticker.symbol s then some ticker.price else none)

  lookup-binance :
      (tickers : List (BinanceTicker F)) (prices : Dict F) (s : Text)
      → lookup s (for_tickers binance_put tickers prices)
        ≡ or_else (last_ticker s tickers) (lookup s prices)
  unfolding for_tickers binance_put
  lookup-binance [] prices s = refl
  lookup-binance (ticker ∷ tickers) prices s = ground (
    arith,
    lookup-binance tickers (insert ticker.symbol ticker.price prices) s,
    lookup-insert ticker.symbol s ticker.price prices,
  )

  -- What is fetched, by how the call went up to the decoding.
  abbrev pub Unfiltered : Result (List (BinanceTicker F)) → Fetched F → Type 0
  Unfiltered (ok tickers) fetched =
      (prices : Dict F) × (fetched ≡ succeeded prices)
      × ((s : Text) → lookup s prices ≡ last_ticker s tickers)
  Unfiltered (err e) fetched = fetched ≡ record { counts = false ∷ []; prices = err e }
  Unfiltered panic fetched = fetched ≡ record { counts = []; prices = panic }

  respond-Unfiltered :
      (r : Result (List (BinanceTicker F)))
      → Unfiltered r (respond r λ tickers. succeeded (for_tickers binance_put tickers []))
  unfolding respond lookup
  respond-Unfiltered (ok tickers) = (
    for_tickers binance_put tickers [],
    refl,
    λ s. lookup-binance tickers [] s ∙ or_else-none (last_ticker s tickers),
  )
  respond-Unfiltered (err e) = refl
  respond-Unfiltered panic = refl

  -- Binance's prices are those of all tickers of the response to a request for the symbols, for each
  -- symbol the last one, whether or not it was asked for. A failure up to the decoding is returned
  -- and counted once, and with no symbols at all the call panics before its request.
  pub binance_price_update-Unfiltered :
      (web : Web) (decode : Text → Result (List (BinanceTicker F))) (symbols : SymbolSet)
      → Unfiltered
          (binance_symbol_csv symbols >>= λ csv.
            download web decode (
              text "https://api.binance.us/api/v3/ticker/price?symbols=%5B" ++ (csv ++ text "%5D")))
          (binance_price_update web decode symbols)
        × (binance_price_update web decode [] ≡ record { counts = []; prices = panic })
  unfolding binance_price_update binance_symbol_csv chop_last respond
  binance_price_update-Unfiltered web decode symbols = (respond-Unfiltered _, refl)
