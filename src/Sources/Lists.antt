-- ===== src/Sources/Lists.antt =====
-- binance.go, gateio.go and bitfinex.go. A response of gateio or bitfinex holds values of any JSON type,
-- and a type assertion that does not hold panics.
pub mod Asserted
pub mod Quoted
pub mod Unfiltered
use pricefeeder.Base.{
  ℕ, Bool, true, false, not, Option, none, some, List, [], ◌∷◌, ◌++◌, Text, text, Dict, lookup,
  insert, has, if◌then◌else◌, Result, ok, err, panic, ◌>>=◌, length, get_or, decimal, ◌==◌,
}
use pricefeeder.Float.{Float}
use pricefeeder.Provider.{SymbolSet}
use pricefeeder.Sources.{Web, Fetched, download, respond, succeeded, for_tickers}
use pricefeeder.Sources.Csv.{binance_symbol_csv, bitfinex_symbol_csv}

pub record BinanceTicker (F : Type 0) : Type 0 where
  pub symbol : Text
  pub price : F

-- An `interface{}` that the JSON decoder made: a string, a number, or anything else, nil included.
pub data Value (F : Type 0) : Type 0 where
  string_value : Text → Value F
  float_value : F → Value F
  other_value : Value F

-- A call that has got as far as its loop: only a success is counted.
abbrev pub finished : {F : Type 0} → Result (Dict F) → Fetched F
finished (ok prices) = succeeded prices
finished (err e) = record { counts = []; prices = err e }
finished panic = record { counts = []; prices = panic }

module _ {F : Type 0} where
  -- `v.(string)` and `v.(float64)`.
  abbrev pub as_string : Value F → Result Text
  as_string (string_value s) = ok s
  as_string v = panic

  abbrev pub as_float : Value F → Result F
  as_float (float_value x) = ok x
  as_float v = panic

  unfoldable pub binance_put : BinanceTicker F → Dict F → Dict F
  binance_put ticker prices = insert ticker.symbol ticker.price prices

  unfoldable pub binance_price_update :
      Web → (Text → Result (List (BinanceTicker F))) → SymbolSet → Fetched F
  unfolding binance_put
  binance_price_update web decode symbols =
      respond
        (binance_symbol_csv symbols >>= λ csv.
          download web decode
            (text "https://api.binance.us/api/v3/ticker/price?symbols=%5B" ++ (csv ++ text "%5D")))
        λ tickers. succeeded (for_tickers binance_put tickers [])

  -- The loop over the tickers, which returns at a ticker of another size. `show` is how `%#v` prints.
  unfoldable pub bitfinex_loop :
      (List (Value F) → Text) → List (List (Value F)) → Dict F → Result (Dict F)
  bitfinex_loop show [] prices = ok prices
  bitfinex_loop show (ticker ∷ tickers) prices =
      if length ticker == 11
      then (as_string (get_or ticker 0 other_value) >>= λ symbol.
          as_float (get_or ticker 7 other_value) >>= λ last_price.
          bitfinex_loop show tickers (insert symbol last_price prices))
      else err (
          text "impossible to parse ticker size "
          ++ (decimal (length ticker) ++ (text ", " ++ show ticker)))

  unfoldable pub bitfinex_price_update :
      Web
      → (Text → Result (List (List (Value F))))
      → (List (Value F) → Text)
      → SymbolSet
      → Fetched F
  bitfinex_price_update web decode show symbols =
      respond
        (bitfinex_symbol_csv symbols >>= λ csv.
          download web decode (text "https://api-pub.bitfinex.com/v2/tickers?symbols=" ++ csv))
        λ tickers. finished (bitfinex_loop show tickers [])

-- `m[k]` of a map of interface values: a missing key reads as nil.
abbrev pub value_at : {F : Type 0} → Text → Dict (Value F) → Value F
value_at k m = elim (lookup k m) [ none ↦ other_value | some v ↦ v ]

module _ {F : Type 0} ⦃d : Float F⦄ where
  -- One round of the loop: a symbol that was not asked for and a price that does not parse are passed
  -- over.
  unfoldable pub gateio_put : SymbolSet → Dict (Value F) → Dict F → Result (Dict F)
  gateio_put symbols ticker prices =
      as_string (value_at (text "currency_pair") ticker) >>= λ symbol.
      if not (has symbol symbols)
      then ok prices
      else (as_string (value_at (text "last") ticker) >>= λ last.
          ok (elim (d.parse last) [ none ↦ prices | some price ↦ insert symbol price prices ]))

  unfoldable pub gateio_loop : SymbolSet → List (Dict (Value F)) → Dict F → Result (Dict F)
  unfolding gateio_put
  gateio_loop symbols [] prices = ok prices
  gateio_loop symbols (ticker ∷ tickers) prices =
      gateio_put symbols ticker prices >>= λ next. gateio_loop symbols tickers next

  unfoldable pub gateio_price_update :
      Web → (Text → Result (List (Dict (Value F)))) → SymbolSet → Fetched F
  gateio_price_update web decode symbols =
      respond (download web decode (text "https://api.gateio.ws/api/v4/spot/tickers"))
        λ tickers. finished (gateio_loop symbols tickers [])
