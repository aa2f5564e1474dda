-- ===== src/Sources/Tickers.antt =====
-- What the four sources that filter the tickers of all pairs return: okex, ascendex, bybit and mexc.
use pricefeeder.Base.{
  or_else-none, or_else_assoc, ◌≡◌, refl, Bool, ◌∙◌, ap, true, false, Option, none, some, List, [],
  ◌∷◌, Text, Dict, lookup, insert, lookup-insert, or_else, has, text_eq, text_eq_iff, if◌then◌else◌,
  Result, ok, err, panic, arith, text,
}
use pricefeeder.Float.{Float}
use pricefeeder.Provider.{SymbolSet}
use pricefeeder.Sources.{Web, Fetched, download, respond, succeeded, for_tickers}
use pricefeeder.Sources.Exchanges.{
  OkexTicker, OkexResponse, AscendexData, AscendexResponse, BybitTicker, BybitResponse, MexcTicker,
  okex_put, ascendex_put, bybit_put, mexc_put, okex_price_update, ascendex_price_update,
  bybit_price_update, mexc_price_update,
}

module _ {F : Type 0} ⦃d : Float F⦄ (symbols : SymbolSet) where
  -- The price of `s` in the last ticker that is for `s` and whose price parses.
  abbrev pub last_quote : {T : Type 0} → (T → Text × Text) → Text → List T → Option F
  last_quote read s [] = none
  last_quote read s (ticker ∷ tickers) =
      or_else (last_quote read s tickers)
        (if text_eq (read ticker).0 s then d.parse (read ticker).1 else none)

  -- What is wanted of a source: the last quote of each symbol that was asked for, and nothing else.
  abbrev pub wanted_quote : {T : Type 0} → (T → Text × Text) → Text → List T → Option F
  wanted_quote read s tickers = if has s symbols then last_quote read s tickers else none

  -- The body of a loop, by what it does to a look-up.
  abbrev Puts : {T : Type 0} → (T → Text × Text) → (T → Dict F → Dict F) → Type 0
  Puts {T} read put =
      (ticker : T) (prices : Dict F) (s : Text)
      → lookup s (put ticker prices)
        ≡ or_else
            (if has s symbols
              then (if text_eq (read ticker).0 s then d.parse (read ticker).1 else none)
              else none)
            (lookup s prices)

  or_else_wanted :
      (a b c : Option F) (b? : Bool)
      → or_else (if b? then a else none) (or_else (if b? then b else none) c)
        ≡ or_else (if b? then or_else a b else none) c
  or_else_wanted a b c true = or_else_assoc a b c
  or_else_wanted a b c false = refl

  lookup-for_tickers :
      {T : Type 0} (read : T → Text × Text) (put : T → Dict F → Dict F)
      → Puts read put
      → (tickers : List T) (prices : Dict F) (s : Text)
      → lookup s (for_tickers put tickers prices)
        ≡ or_else (wanted_quote read s tickers) (lookup s prices)
  unfolding for_tickers
  lookup-for_tickers read put puts [] prices s = ground arith
  lookup-for_tickers read put puts (ticker ∷ tickers) prices s =
      lookup-for_tickers read put puts tickers (put ticker prices) s
      ∙ ap (or_else (wanted_quote read s tickers)) (puts ticker prices s)
      ∙ or_else_wanted _ _ _ (has s symbols)

  -- `prices[symbol] = price` when the price parses and the symbol was asked for.
  unfoldable put_quote : Text → Option F → Dict F → Dict F
  put_quote symbol none prices = prices
  put_quote symbol (some price) prices =
      if has symbol symbols then insert symbol price prices else prices

  lookup-put_quote :
      (symbol : Text) (p : Option F) (prices : Dict F) (s : Text)
      → lookup s (put_quote symbol p prices)
        ≡ or_else
            (if has s symbols then (if text_eq symbol s then p else none) else none)
            (lookup s prices)
  unfolding put_quote
  lookup-put_quote symbol none prices s = ground arith
  lookup-put_quote symbol (some price) prices s =
      ground (arith, lookup-insert symbol s price prices, text_eq_iff symbol s)

  okex_put-put_quote :
      (t : OkexTicker) (prices : Dict F)
      → okex_put symbols t prices ≡ put_quote t.symbol (d.parse t.price) prices
  unfolding okex_put put_quote
  okex_put-put_quote t prices = ground arith

  ascendex_put-put_quote :
      (t : AscendexData) (prices : Dict F)
      → ascendex_put symbols t prices ≡ put_quote t.symbol (d.parse t.close) prices
  unfolding ascendex_put put_quote
  ascendex_put-put_quote t prices = ground arith

  bybit_put-put_quote :
      (t : BybitTicker) (prices : Dict F)
      → bybit_put symbols t prices ≡ put_quote t.symbol (d.parse t.price) prices
  unfolding bybit_put put_quote
  bybit_put-put_quote t prices = ground arith

  mexc_put-put_quote :
      (t : MexcTicker) (prices : Dict F)
      → mexc_put symbols t prices ≡ put_quote t.symbol (d.parse t.price) prices
  unfolding mexc_put put_quote
  mexc_put-put_quote t prices = ground arith

  abbrev pub Quotes :
      {R T : Type 0} → (T → Text × Text) → (R → List T) → Result R → Fetched F → Type 0
  Quotes read tickers (ok response) fetched =
      (prices : Dict F) × (fetched ≡ succeeded prices)
      × ((s : Text) → lookup s prices ≡ wanted_quote read s (tickers response))
  Quotes read tickers (err e) fetched = fetched ≡ record { counts = false ∷ []; prices = err e }
  Quotes read tickers panic fetched = fetched ≡ record { counts = []; prices = panic }

  respond-Quotes :
      {R T : Type 0} (read : T → Text × Text) (tickers : R → List T) (put : T → Dict F → Dict F)
      → ((t : T) (m : Dict F) → put t m ≡ put_quote (read t).0 (d.parse (read t).1) m)
      → (r : Result R)
      → Quotes read tickers r
          (respond r λ response. succeeded (for_tickers put (tickers response) []))
  unfolding respond lookup
  respond-Quotes read tickers put e (ok response) = (
    for_tickers put (tickers response) [],
    refl,
    λ s.
        lookup-for_tickers read put
          (λ t m s. ap (lookup s) (e t m) ∙ lookup-put_quote (read t).0 (d.parse (read t).1) m s)
          (tickers response) [] s
        ∙ or_else-none (wanted_quote read s (tickers response)),
  )
  respond-Quotes read tickers put e (err message) = refl
  respond-Quotes read tickers put e panic = refl

-- For okex, ascendex, bybit and mexc: what is fetched has the price of a symbol exactly if the symbol
-- was asked for and some ticker for it has a price that parses, and it is the price of the last such
-- ticker; the success is counted once. A failure of the download is returned as it is and counted once
-- as a failure.
pub price_updates-Quotes :
    (F : Type 0) ⦃d : Float F⦄ (symbols : SymbolSet) (web : Web) (okex : Text → Result OkexResponse)
    (ascendex : Text → Result AscendexResponse) (bybit : Text → Result BybitResponse)
    (mexc : Text → Result (List MexcTicker))
    → Quotes {F = F} symbols
        (λ t. (t.symbol, t.price))
        (λ response. response.tickers)
        (download web okex (text "https://www.okx.com/api/v5/market/tickers?instType=SPOT"))
        (okex_price_update web okex symbols)
      × Quotes {F = F} symbols
          (λ t. (t.symbol, t.close))
          (λ response. response.tickers)
          (download web ascendex (text "https://ascendex.com/api/pro/v1/spot/ticker"))
          (ascendex_price_update web ascendex symbols)
      × Quotes {F = F} symbols
          (λ t. (t.symbol, t.price))
          (λ response. response.list)
          (download web bybit (text "https://api.bybit.com/v5/market/tickers?category=spot"))
          (bybit_price_update web bybit symbols)
      × Quotes {F = F} symbols
          (λ t. (t.symbol, t.price))
          (λ response. response)
          (download web mexc (text "https://api.mexc.com/api/v3/ticker/price"))
          (mexc_price_update web mexc symbols)
unfolding okex_price_update ascendex_price_update bybit_price_update mexc_price_update
price_updates-Quotes F symbols web okex ascendex bybit mexc = (
  respond-Quotes symbols _ (λ response. response.tickers) (okex_put symbols)
      (okex_put-put_quote symbols) _,
  respond-Quotes symbols _ (λ response. response.tickers) (ascendex_put symbols)
      (ascendex_put-put_quote symbols) _,
  respond-Quotes symbols _ (λ response. response.list) (bybit_put symbols)
      (bybit_put-put_quote symbols) _,
  respond-Quotes symbols _ (λ response. response) (mexc_put symbols) (mexc_put-put_quote symbols) _,
)
