-- ===== src/Start.antt =====
-- `NewPriceProvider` of feeder/priceprovider/priceprovider.go, which picks the source by its name, and
-- `NewAggregatePriceProvider` of aggregateprovider.go, which starts a provider for each exchange.
pub mod Known
use pricefeeder.Base.{
  Option, none, some, List, [], ◌∷◌, Text, text, text_eq, Dict, lookup, if◌then◌else◌, Result, ok,
  panic, ◌>>=◌,
}
use pricefeeder.Float.{Float}
use pricefeeder.Types.{Symbol}
use pricefeeder.Provider.{SymbolSet, ProviderLoop, map_values, new_provider}
use pricefeeder.Tick.{TickSource, new_tick_source}
use pricefeeder.Sources.{Web, Fetched}
use pricefeeder.Sources.Exchanges.{
  OkexResponse, AscendexResponse, BybitResponse, MexcTicker, okex_price_update,
  ascendex_price_update, bybit_price_update, mexc_price_update,
}
use pricefeeder.Sources.Lists.{
  BinanceTicker, Value, binance_price_update, bitfinex_price_update, gateio_price_update,
}
use pricefeeder.Sources.Keyed.{
  CoingeckoTicker, CoingeckoConfig, CmcResponse, CoinmarketcapConfig, CmcWeb,
  coingecko_price_update, coinmarketcap_price_update,
}
use pricefeeder.Sources.Uniswap.{Ethereum, BigFloat, uniswap_price_update}

-- What the sources call: the web, the decoders of their responses, and the node.
pub record SourceDeps (F : Type 0) : Type 1 where
  pub web : Web
  pub cmc_web : CmcWeb
  pub bitfinex : Text → Result (List (List (Value F)))
  pub show_ticker : List (Value F) → Text
  pub binance : Text → Result (List (BinanceTicker F))
  pub coingecko_config : Text → Result CoingeckoConfig
  pub coingecko : Text → Result (Dict (CoingeckoTicker F))
  pub okex : Text → Result OkexResponse
  pub gateio : Text → Result (List (Dict (Value F)))
  pub coinmarketcap_config : Text → Result CoinmarketcapConfig
  pub coinmarketcap : Text → Result (CmcResponse F)
  pub bybit : Text → Result BybitResponse
  pub ethereum : Ethereum
  pub big_float : BigFloat F
  pub percent_f : F → Text
  pub mexc : Text → Result (List MexcTicker)
  pub ascendex : Text → Result AscendexResponse

-- A provider with the source that it was given, as they start.
pub record Started (F : Type 0) : Type 0 where
  pub fetch_prices : SymbolSet → Fetched F
  pub symbols : SymbolSet
  pub source : TickSource F
  pub loop : ProviderLoop F

module _ {F : Type 0} ⦃d : Float F⦄ (deps : SourceDeps F) where
  -- The switch over the names of the sources; `none` is its default.
  unfoldable pub source_of : Text → Text → Option (SymbolSet → Fetched F)
  source_of name config =
      if text_eq name (text "bitfinex")
      then some (bitfinex_price_update deps.web deps.bitfinex deps.show_ticker)
      else if text_eq name (text "binance")
      then some (binance_price_update deps.web deps.binance)
      else if text_eq name (text "coingecko")
      then some (coingecko_price_update deps.web deps.coingecko_config deps.coingecko config)
      else if text_eq name (text "okex")
      then some (okex_price_update deps.web deps.okex)
      else if text_eq name (text "gateio")
      then some (gateio_price_update deps.web deps.gateio)
      else if text_eq name (text "coinmarketcap")
      then some (
          coinmarketcap_price_update deps.cmc_web deps.coinmarketcap_config deps.coinmarketcap
            config)
      else if text_eq name (text "bybit")
      then some (bybit_price_update deps.web deps.bybit)
      else if text_eq name (text "uniswap")
      then some (λ symbols. uniswap_price_update deps.ethereum deps.big_float deps.percent_f)
      else if text_eq name (text "mexc")
      then some (mexc_price_update deps.web deps.mexc)
      else if text_eq name (text "ascendex")
      then some (ascendex_price_update deps.web deps.ascendex)
      else none

  started : Text → Dict Symbol → Option (SymbolSet → Fetched F) → Result (Started F)
  started name mapping none = panic
  started name mapping (some fetch) = ok (record {
    fetch_prices = fetch;
    symbols = map_values mapping;
    source = new_tick_source;
    loop = new_provider name mapping;
  })

  unfoldable pub new_price_provider : Text → Dict Symbol → Text → Result (Started F)
  unfolding started
  new_price_provider name mapping config = started name mapping (source_of name config)

  -- `m[k]` of the configurations: a missing key reads as no bytes.
  config_of : Option Text → Text
  config_of none = []
  config_of (some config) = config

  unfoldable pub new_aggregate : Dict (Dict Symbol) → Dict Text → Result (List (Started F))
  unfolding config_of
  new_aggregate [] configs = ok []
  new_aggregate ((name, mapping) ∷ exchanges) configs =
      new_price_provider name mapping (config_of (lookup name configs)) >>= λ p.
      new_aggregate exchanges configs >>= λ ps. ok (p ∷ ps)
