-- ===== src/Sources/Lists/Asserted.antt =====
-- What bitfinex.go makes of the tickers of a response, whose types it asserts.
use pricefeeder.Base.{
  or_else-none, ◌≡◌, ◌≢◌, ◌⊎◌, inl, inr, refl, ◌∙◌, Option, none, some, List, [], ◌∷◌, ◌++◌, Text,
  text, Dict, lookup, insert, lookup-insert, or_else, text_eq, if◌then◌else◌, Result, ok, err,
  panic, arith, ◌>>=◌, length, get_or, decimal, ◌==◌,
}
use pricefeeder.Provider.{SymbolSet}
use pricefeeder.Sources.{Web, Fetched, download, respond, succeeded}
use pricefeeder.Sources.Csv.{bitfinex_symbol_csv}
use pricefeeder.Sources.Lists.{
  Value, string_value, float_value, other_value, as_string, as_float, finished, bitfinex_loop,
  bitfinex_price_update,
}

-- The price in the last row for a symbol.
abbrev pub last_row : {F : Type 0} → Text → Dict F → Option F
last_row s [] = none
last_row s ((symbol, price) ∷ rows) =
    or_else (last_row s rows) (if text_eq symbol s then some price else none)

-- Each ticker holds the row in its place.
abbrev pub Rows : {T R : Type 0} → (T → R → Type 0) → List T → List R → Type 0
Rows Holds [] [] = Unit
Rows Holds (ticker ∷ tickers) (row ∷ rows) = Holds ticker row × Rows Holds tickers rows
Rows Holds _ _ = ⊥

module _ {F : Type 0} where
  -- A ticker of the documented size, with the symbol and the last price where they are read.
  abbrev pub BitfinexRow : List (Value F) → Text × F → Type 0
  BitfinexRow ticker (symbol, price) =
      (length ticker ≡ 11)
      × (get_or ticker 0 other_value ≡ string_value symbol)
      × (get_or ticker 7 other_value ≡ float_value price)

  bitfinex_loop-Rows :
      (show : List (Value F) → Text) (tickers : List (List (Value F))) (rows : Dict F)
      (prices : Dict F) (rest : List (List (Value F)))
      → Rows BitfinexRow tickers rows
      → (m : Dict F) × ((s : Text) → lookup s m ≡ or_else (last_row s rows) (lookup s prices))
        × (bitfinex_loop show (tickers ++ rest) prices ≡ bitfinex_loop show rest m)
  unfolding bitfinex_loop
  bitfinex_loop-Rows show [] [] prices rest h = (prices, (λ s. refl), refl)
  bitfinex_loop-Rows show [] (_ ∷ rows) prices rest h = elim h [ ]
  bitfinex_loop-Rows show (ticker ∷ tickers) [] prices rest h = elim h [ ]
  bitfinex_loop-Rows show (ticker ∷ tickers) ((symbol, price) ∷ rows) prices rest
        ((size, first, last), h) =
      let (m, found, e) =
        bitfinex_loop-Rows show tickers rows (insert symbol price prices) rest h in
      (
        m,
        (λ s. ground (arith, found s, lookup-insert symbol s price prices)),
        rw (size, first, last) e,
      )

  -- Nothing follows, or a ticker that is not of the documented form.
  abbrev pub BitfinexStop : List (List (Value F)) → Type 0
  BitfinexStop [] = Unit
  BitfinexStop (ticker ∷ rest) =
      (length ticker ≢ 11)
      ⊎ (((symbol : Text) → get_or ticker 0 other_value ≢ string_value symbol)
          ⊎ ((price : F) → get_or ticker 7 other_value ≢ float_value price))

  abbrev pub bitfinex_end : (List (Value F) → Text) → Dict F → List (List (Value F)) → Fetched F
  bitfinex_end show m [] = succeeded m
  bitfinex_end show m (ticker ∷ rest) =
      if length ticker == 11 then record { counts = []; prices = panic } else record {
        counts = [];
        prices = err (
            text "impossible to parse ticker size "
            ++ (decimal (length ticker) ++ (text ", " ++ show ticker)));
      }

  pub as_string-panic : (v : Value F) → ((s : Text) → v ≢ string_value s) → as_string v ≡ panic
  as_string-panic (string_value s) h = elim (h s refl) [ ]
  as_string-panic (float_value x) h = refl
  as_string-panic other_value h = refl

  as_float-panic : (v : Value F) → ((x : F) → v ≢ float_value x) → as_float v ≡ panic
  as_float-panic (string_value s) h = refl
  as_float-panic (float_value x) h = elim (h x refl) [ ]
  as_float-panic other_value h = refl

  asserted-panic :
      (v w : Value F) (k : Text → F → Result (Dict F))
      → ((s : Text) → v ≢ string_value s) ⊎ ((x : F) → w ≢ float_value x)
      → (as_string v >>= λ s. as_float w >>= λ x. k s x) ≡ panic
  asserted-panic v w k (inl bad) = rw (as_string-panic v bad) refl
  asserted-panic (string_value s) w k (inr bad) = rw (as_float-panic w bad) refl
  asserted-panic (float_value x) w k (inr bad) = refl
  asserted-panic other_value w k (inr bad) = refl

  finished-stop :
      (show : List (Value F) → Text) (rest : List (List (Value F))) (m : Dict F)
      → BitfinexStop rest
      → finished (bitfinex_loop show rest m) ≡ bitfinex_end show m rest
  unfolding bitfinex_loop
  finished-stop show [] m stop = refl
  finished-stop show (ticker ∷ rest) m (inl size) = ground (arith, size)
  finished-stop show (ticker ∷ rest) m (inr bad) =
      let e =
        asserted-panic (get_or ticker 0 other_value) (get_or ticker 7 other_value)
          (λ s x. bitfinex_loop show rest (insert s x m)) bad in
      rw e (ground arith)

  -- Where the download succeeds and the tickers up to some point are of the documented form, what is
  -- fetched has for each symbol the price of its last ticker, whether or not the symbol was asked for,
  -- and one success is counted, if there are no more tickers. If a ticker of another form follows, the
  -- call panics if it is of size 11 and otherwise returns an error with its size; nothing is counted.
  pub bitfinex_price_update-Rows :
      (web : Web) (decode : Text → Result (List (List (Value F)))) (show : List (Value F) → Text)
      (symbols : SymbolSet) (csv : Text) (tickers : List (List (Value F))) (rows : Dict F)
      (rest : List (List (Value F)))
      → bitfinex_symbol_csv symbols ≡ ok csv
      → download web decode (text "https://api-pub.bitfinex.com/v2/tickers?symbols=" ++ csv)
        ≡ ok (tickers ++ rest)
      → Rows BitfinexRow tickers rows
      → BitfinexStop rest
      → (m : Dict F) × (bitfinex_price_update web decode show symbols ≡ bitfinex_end show m rest)
        × ((s : Text) → lookup s m ≡ last_row s rows)
  unfolding bitfinex_price_update respond lookup
  bitfinex_price_update-Rows web decode show symbols csv tickers rows rest csv_ok all_ok h stop =
      let (m, found, e) = bitfinex_loop-Rows show tickers rows [] rest h in
      (m, rw (csv_ok, all_ok, e) (finished-stop show rest m stop), λ s. found s ∙ or_else-none _)
