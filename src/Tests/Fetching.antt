-- ===== src/Tests/Fetching.antt =====
-- The sources of prices (feeder/priceprovider/sources) at concrete responses.
use pricefeeder.Sources.Lists.{BinanceTicker}
use pricefeeder.Sources.Csv.{binance_symbol_csv}
use pricefeeder.Base.{
  ◌≡◌, refl, inl, inr, List, [], ◌∷◌, ◌++◌, Text, text, Dict, lookup, Result, ok, err, panic, arith,
  text_eq,
}
use pricefeeder.Sample.{Number, pos, number_float}
use pricefeeder.Provider.{SymbolSet}
use pricefeeder.PriceText.{split_at}
use pricefeeder.Sources.{Web, download}
use pricefeeder.Sources.Csv.{
  bitfinex_symbol_csv, coingecko_symbol_csv, coinmarketcap_symbol_csv, chop_last, symbol_csv-split,
}
use pricefeeder.Sources.Exchanges.{
  OkexResponse, AscendexResponse, BybitResponse, MexcTicker, okex_price_update,
  ascendex_price_update, bybit_price_update, mexc_price_update,
}
use pricefeeder.Sources.Tickers.{Quotes, price_updates-Quotes}
use pricefeeder.Sources.Keyed.{CoingeckoTicker, CmcResponse, CmcWeb}
use pricefeeder.Sources.Lists.{
  Value, string_value, float_value, other_value, bitfinex_price_update, gateio_price_update,
}
use pricefeeder.Sources.Lists.Asserted.{last_row, bitfinex_end, bitfinex_price_update-Rows}
use pricefeeder.Sources.Lists.Quoted.{last_parsed, gateio_end, gateio_price_update-Rows}

abbrev btc : Text
btc = text "tBTCUSD"

abbrev eth : Text
eth = text "tETHUSD"

abbrev symbols : SymbolSet
symbols = (btc, tt) ∷ (eth, tt) ∷ []

symbol_csv-split_example :
    (csv : Text) × (bitfinex_symbol_csv symbols ≡ ok csv)
    × (coingecko_symbol_csv symbols ≡ ok csv)
    × (coinmarketcap_symbol_csv symbols ≡ ok csv)
    × (split_at b',' csv ≡ (btc, eth ∷ []))
    × (bitfinex_symbol_csv [] ≡ panic)
    × (coingecko_symbol_csv [] ≡ panic)
    × (coinmarketcap_symbol_csv [] ≡ panic)
symbol_csv-split_example = symbol_csv-split btc tt ((eth, tt) ∷ []) (
  (refl, (refl, (refl, (refl, (refl, (refl, (refl, tt))))))),
  ((refl, (refl, (refl, (refl, (refl, (refl, (refl, tt))))))), tt),
)

-- A web that answers with the address that it is asked for.
abbrev web : Web
web = record { Body = Text; http_get = λ url. ok url; read_all = λ body. ok body }

abbrev okex : Text → Result OkexResponse
okex content = ok (record {
  tickers =
      record { symbol = btc; price = text "30" }
      ∷ record { symbol = text "DOGE"; price = text "1" }
      ∷ [];
})

abbrev ascendex : Text → Result AscendexResponse
ascendex content =
    ok (record { code = 0; tickers = record { symbol = btc; close = text "31" } ∷ [] })

abbrev bybit : Text → Result BybitResponse
bybit content = ok (record { list = record { symbol = eth; price = text "x" } ∷ [] })

abbrev mexc : Text → Result (List MexcTicker)
mexc content = err (text "unexpected end of JSON input")

price_updates-Quotes_example :
    Quotes {F = Number} symbols
      (λ t. (t.symbol, t.price))
      (λ response. response.tickers)
      (download web okex (text "https://www.okx.com/api/v5/market/tickers?instType=SPOT"))
      (okex_price_update web okex symbols)
    × Quotes {F = Number} symbols
        (λ t. (t.symbol, t.close))
        (λ response. response.tickers)
        (download web ascendex (text "https://ascendex.com/api/pro/v1/spot/ticker"))
        (ascendex_price_update web ascendex symbols)
    × Quotes {F = Number} symbols
        (λ t. (t.symbol, t.price))
        (λ response. response.list)
        (download web bybit (text "https://api.bybit.com/v5/market/tickers?category=spot"))
        (bybit_price_update web bybit symbols)
    × Quotes {F = Number} symbols
        (λ t. (t.symbol, t.price))
        (λ response. response)
        (download web mexc (text "https://api.mexc.com/api/v3/ticker/price"))
        (mexc_price_update web mexc symbols)
price_updates-Quotes_example = price_updates-Quotes Number symbols web okex ascendex bybit mexc

abbrev bitfinex_ticker : Text → Number → List (Value Number)
bitfinex_ticker symbol price =
    string_value symbol
    ∷ other_value
    ∷ other_value
    ∷ other_value
    ∷ other_value
    ∷ other_value
    ∷ other_value
    ∷ float_value price
    ∷ other_value
    ∷ other_value
    ∷ other_value
    ∷ []

abbrev bitfinex_tickers : List (List (Value Number))
bitfinex_tickers = bitfinex_ticker btc (pos 30) ∷ bitfinex_ticker (text "tDOGE") (pos 1) ∷ []

abbrev short_ticker : List (List (Value Number))
short_ticker = (string_value eth ∷ []) ∷ []

abbrev bitfinex : Text → Result (List (List (Value Number)))
bitfinex content = ok (bitfinex_tickers ++ short_ticker)

bitfinex_price_update-Rows_example :
    (m : Dict Number) × (bitfinex_price_update web bitfinex (λ ticker. text "?") symbols
      ≡ bitfinex_end (λ ticker. text "?") m short_ticker)
    × ((s : Text) → lookup s m ≡ last_row s ((btc, pos 30) ∷ (text "tDOGE", pos 1) ∷ []))
unfolding bitfinex_symbol_csv chop_last download
bitfinex_price_update-Rows_example =
    bitfinex_price_update-Rows web bitfinex (λ ticker. text "?") symbols (text "tBTCUSD,tETHUSD")
      bitfinex_tickers ((btc, pos 30) ∷ (text "tDOGE", pos 1) ∷ []) short_ticker refl refl
      ((refl, refl, refl), ((refl, refl, refl), tt)) (inl (ground arith))

abbrev gateio_ticker : Text → Value Number → Dict (Value Number)
gateio_ticker pair last = (text "currency_pair", string_value pair) ∷ (text "last", last) ∷ []

abbrev gateio_tickers : List (Dict (Value Number))
gateio_tickers = gateio_ticker btc (string_value (text "30")) ∷ []

abbrev number_ticker : List (Dict (Value Number))
number_ticker = gateio_ticker eth (float_value (pos 2)) ∷ []

abbrev gateio : Text → Result (List (Dict (Value Number)))
gateio content = ok (gateio_tickers ++ number_ticker)

gateio_price_update-Rows_example :
    (m : Dict Number) × (gateio_price_update web gateio symbols
      ≡ gateio_end symbols m number_ticker)
    × ((s : Text) → lookup s m ≡ last_parsed {F = Number} symbols s ((btc, text "30") ∷ []))
unfolding download lookup text_eq
gateio_price_update-Rows_example =
    gateio_price_update-Rows symbols web gateio gateio_tickers ((btc, text "30") ∷ []) number_ticker
      refl ((refl, inr refl), tt) (inr ((eth, refl, refl), λ last e. ground arith))

abbrev coingecko : Text → Result (Dict (CoingeckoTicker Number))
coingecko content = ok ((btc, record { price = pos 30 }) ∷ [])

abbrev cmc_web : CmcWeb
cmc_web = record {
  Body = Text;
  new_request = λ method link. ok (record { url = link; raw_query = []; header = [] });
  client_do = λ req. ok req.raw_query;
  read_all = λ body. ok body;
}

abbrev cmc : Text → Result (CmcResponse Number)
cmc content = ok (record {
  data_ =
      (text "1", record { slug = btc; quote = record { usd = record { price = pos 30 } } }) ∷ [];
})

abbrev binance : Text → Result (List (BinanceTicker Number))
binance content = ok (record { symbol = btc; price = pos 30 } ∷ [])

binance_symbol_csv_test : binance_symbol_csv symbols ≡ ok (text "%22tBTCUSD%22,%22tETHUSD%22")
unfolding binance_symbol_csv chop_last
binance_symbol_csv_test = refl
