-- ===== src/Sources/Exchanges.antt =====
-- okex.go, ascendex.go, bybit.go and mexc.go: each downloads the tickers of all pairs and keeps the
-- prices of the symbols that were asked for.
use pricefeeder.Base.{
  ℕ, none, some, List, [], Text, text, Dict, insert, has, not, if◌then◌else◌, Result,
}
use pricefeeder.Float.{Float}
use pricefeeder.Provider.{SymbolSet}
use pricefeeder.Sources.{Web, Fetched, download, respond, succeeded, for_tickers}

pub record OkexTicker : Type 0 where
  pub symbol : Text
  pub price : Text

pub record OkexResponse : Type 0 where
  pub tickers : List OkexTicker

-- The fields that are not read are left out.
pub record AscendexData : Type 0 where
  pub symbol : Text
  pub close : Text

pub record AscendexResponse : Type 0 where
  pub code : ℕ
  pub tickers : List AscendexData

pub record BybitTicker : Type 0 where
  pub symbol : Text
  pub price : Text

pub record BybitResponse : Type 0 where
  pub list : List BybitTicker

pub record MexcTicker : Type 0 where
  pub symbol : Text
  pub price : Text

module _ {F : Type 0} ⦃d : Float F⦄ where
  -- The filter comes first, and a price that does not parse is passed over.
  unfoldable pub okex_put : SymbolSet → OkexTicker → Dict F → Dict F
  okex_put symbols ticker prices =
      if not (has ticker.symbol symbols) then prices else (elim (d.parse ticker.price) [
        | none ↦ prices
        | some price ↦ insert ticker.symbol price prices
      ])

  unfoldable pub okex_price_update : Web → (Text → Result OkexResponse) → SymbolSet → Fetched F
  unfolding okex_put
  okex_price_update web decode symbols =
      respond (download web decode (text "https://www.okx.com/api/v5/market/tickers?instType=SPOT"))
        λ response. succeeded (for_tickers (okex_put symbols) response.tickers [])

  -- The price is parsed first, and kept if the symbol was asked for.
  unfoldable pub ascendex_put : SymbolSet → AscendexData → Dict F → Dict F
  ascendex_put symbols ticker prices = elim (d.parse ticker.close) [
    | none ↦ prices
    | some price ↦ if has ticker.symbol symbols then insert ticker.symbol price prices else prices
  ]

  unfoldable pub ascendex_price_update :
      Web → (Text → Result AscendexResponse) → SymbolSet → Fetched F
  unfolding ascendex_put
  ascendex_price_update web decode symbols =
      respond (download web decode (text "https://ascendex.com/api/pro/v1/spot/ticker"))
        λ response. succeeded (for_tickers (ascendex_put symbols) response.tickers [])

  unfoldable pub bybit_put : SymbolSet → BybitTicker → Dict F → Dict F
  bybit_put symbols ticker prices = elim (d.parse ticker.price) [
    | none ↦ prices
    | some price ↦ if has ticker.symbol symbols then insert ticker.symbol price prices else prices
  ]

  unfoldable pub bybit_price_update : Web → (Text → Result BybitResponse) → SymbolSet → Fetched F
  unfolding bybit_put
  bybit_price_update web decode symbols =
      respond (download web decode (text "https://api.bybit.com/v5/market/tickers?category=spot"))
        λ response. succeeded (for_tickers (bybit_put symbols) response.list [])

  unfoldable pub mexc_put : SymbolSet → MexcTicker → Dict F → Dict F
  mexc_put symbols ticker prices = elim (d.parse ticker.price) [
    | none ↦ prices
    | some price ↦ if has ticker.symbol symbols then insert ticker.symbol price prices else prices
  ]

  unfoldable pub mexc_price_update : Web → (Text → Result (List MexcTicker)) → SymbolSet → Fetched F
  unfolding mexc_put
  mexc_price_update web decode symbols =
      respond (download web decode (text "https://api.mexc.com/api/v3/ticker/price"))
        λ response. succeeded (for_tickers (mexc_put symbols) response [])
