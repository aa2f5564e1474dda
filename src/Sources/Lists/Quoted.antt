-- ===== src/Sources/Lists/Quoted.antt =====
-- What gateio.go makes of the tickers of a response, whose types it asserts.
use pricefeeder.Base.{
  false, or_else-none, Bool-cases, ◌&&◌, ◌≡◌, ◌≢◌, ◌⊎◌, inl, inr, refl, ◌∙◌, true, Option,
  Option-cases, none, List, [], ◌∷◌, ◌++◌, Text, text, Dict, lookup, insert, lookup-insert, or_else,
  has, text_eq, text_eq_iff, if◌then◌else◌, Result, ok, panic, arith,
}
use pricefeeder.Float.{Float}
use pricefeeder.Provider.{SymbolSet}
use pricefeeder.Sources.{Web, Fetched, download, respond, succeeded}
use pricefeeder.Sources.Lists.{
  Value, string_value, value_at, finished, gateio_put, gateio_loop, gateio_price_update,
}
use pricefeeder.Sources.Lists.Asserted.{Rows, as_string-panic}

module _ {F : Type 0} ⦃d : Float F⦄ (symbols : SymbolSet) where
  -- A ticker with a string for the pair, and one for the price if the pair was asked for.
  abbrev pub GateioRow : Dict (Value F) → Text × Text → Type 0
  GateioRow ticker (symbol, last) =
      (value_at (text "currency_pair") ticker ≡ string_value symbol)
      × ((has symbol symbols ≡ false) ⊎ (value_at (text "last") ticker ≡ string_value last))

  -- A row's price in the last row for a symbol whose price parses, if the symbol was asked for.
  abbrev pub last_parsed : Text → List (Text × Text) → Option F
  last_parsed s [] = none
  last_parsed s ((symbol, last) ∷ rows) =
      or_else (last_parsed s rows)
        (if text_eq symbol s && has s symbols then d.parse last else none)

  -- Nothing follows, or a ticker with no string for the pair, or for the price of a pair that was asked
  -- for.
  abbrev pub GateioStop : List (Dict (Value F)) → Type 0
  GateioStop [] = Unit
  GateioStop (ticker ∷ rest) =
      ((symbol : Text) → value_at (text "currency_pair") ticker ≢ string_value symbol)
      ⊎ (((symbol : Text) × (value_at (text "currency_pair") ticker ≡ string_value symbol)
            × (has symbol symbols ≡ true))
          × ((last : Text) → value_at (text "last") ticker ≢ string_value last))

  gateio_put-GateioRow :
      (ticker : Dict (Value F)) (symbol last : Text) (prices : Dict F)
      → GateioRow ticker (symbol, last)
      → (m : Dict F) × (gateio_put symbols ticker prices ≡ ok m)
        × ((s : Text)
            → lookup s m
              ≡ or_else
                  (if text_eq symbol s && has s symbols then d.parse last else none)
                  (lookup s prices))
  unfolding gateio_put
  gateio_put-GateioRow ticker symbol last prices (pair, inl h) =
      (prices, rw (pair, h) refl, λ s. ground (arith, h, text_eq_iff symbol s))
  gateio_put-GateioRow ticker symbol last prices (pair, inr quoted) =
      elim (Bool-cases (has symbol symbols)) [
        | inl h ↦ elim (Option-cases (d.parse last)) [
          | inl e ↦ (prices, rw (pair, h, quoted, e) refl, λ s. ground (arith, e))
          | inr (p, e) ↦ (
            insert symbol p prices,
            rw (pair, h, quoted, e) refl,
            λ s. ground (arith, e, h, lookup-insert symbol s p prices, text_eq_iff symbol s),
          )
        ]
        | inr h ↦ (prices, rw (pair, h) refl, λ s. ground (arith, h, text_eq_iff symbol s))
      ]

  gateio_loop-Rows :
      (tickers : List (Dict (Value F))) (rows : List (Text × Text)) (prices : Dict F)
      (rest : List (Dict (Value F)))
      → Rows GateioRow tickers rows
      → (m : Dict F) × ((s : Text) → lookup s m ≡ or_else (last_parsed s rows) (lookup s prices))
        × (gateio_loop symbols (tickers ++ rest) prices ≡ gateio_loop symbols rest m)
  unfolding gateio_loop
  gateio_loop-Rows [] [] prices rest h = (prices, (λ s. refl), refl)
  gateio_loop-Rows [] (_ ∷ rows) prices rest h = elim h [ ]
  gateio_loop-Rows (ticker ∷ tickers) [] prices rest h = elim h [ ]
  gateio_loop-Rows (ticker ∷ tickers) ((symbol, last) ∷ rows) prices rest (row, h) =
      let (next, put, read) = gateio_put-GateioRow ticker symbol last prices row in
      let (m, found, e) = gateio_loop-Rows tickers rows next rest h in
      (m, (λ s. ground (arith, found s, read s)), rw put e)

  abbrev pub gateio_end : Dict F → List (Dict (Value F)) → Fetched F
  gateio_end m [] = succeeded m
  gateio_end m (ticker ∷ rest) = record { counts = []; prices = panic }

  finished-GateioStop :
      (rest : List (Dict (Value F))) (m : Dict F)
      → GateioStop rest
      → finished (gateio_loop symbols rest m) ≡ gateio_end m rest
  unfolding gateio_loop gateio_put
  finished-GateioStop [] m stop = refl
  finished-GateioStop (ticker ∷ rest) m (inl bad) =
      rw (as_string-panic (value_at (text "currency_pair") ticker) bad) refl
  finished-GateioStop (ticker ∷ rest) m (inr ((symbol, pair, asked), bad)) =
      rw (pair, asked, as_string-panic (value_at (text "last") ticker) bad) refl

  -- Where the download succeeds and the tickers up to some point have strings for the pair and, for a
  -- pair that was asked for, the price, what is fetched has for each symbol that was asked for the last
  -- price that parses, and one success is counted, if there are no more tickers. If a ticker without
  -- those strings follows, the call panics and nothing is counted.
  pub gateio_price_update-Rows :
      (web : Web) (decode : Text → Result (List (Dict (Value F)))) (tickers : List (Dict (Value F)))
      (rows : List (Text × Text)) (rest : List (Dict (Value F)))
      → download web decode (text "https://api.gateio.ws/api/v4/spot/tickers")
        ≡ ok (tickers ++ rest)
      → Rows GateioRow tickers rows
      → GateioStop rest
      → (m : Dict F) × (gateio_price_update web decode symbols ≡ gateio_end m rest)
        × ((s : Text) → lookup s m ≡ last_parsed s rows)
  unfolding gateio_price_update respond lookup
  gateio_price_update-Rows web decode tickers rows rest all_ok h stop =
      let (m, found, e) = gateio_loop-Rows tickers rows [] rest h in
      (m, rw (all_ok, e) (finished-GateioStop rest m stop), λ s. found s ∙ or_else-none _)
