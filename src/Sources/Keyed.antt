-- ===== src/Sources/Keyed.antt =====
-- coingecko.go and coinmarketcap.go: the sources with a configuration, whose response has the prices by
-- the name of the asset. The decoders of the configuration and of the response are parameters.
pub mod Requested
use pricefeeder.Base.{
  wrap_error, ℕ, Bool, none, some, List, [], ◌∷◌, ◌++◌, Text, text, Dict, lookup, insert, text_eq,
  if◌then◌else◌, Result, ok, err, panic, ◌>>=◌,
}
use pricefeeder.Provider.{SymbolSet}
use pricefeeder.Sources.{Web, Fetched, download, respond, succeeded}
use pricefeeder.Sources.Csv.{coingecko_symbol_csv, coinmarketcap_symbol_csv}
use pricefeeder.Sources.Query.{encode_values}

pub record CoingeckoTicker (F : Type 0) : Type 0 where
  pub price : F

pub record CoingeckoConfig : Type 0 where
  pub api_key : Text

pub record CmcQuotePrice (F : Type 0) : Type 0 where
  pub price : F

pub record CmcQuote (F : Type 0) : Type 0 where
  pub usd : CmcQuotePrice F

pub record CmcTicker (F : Type 0) : Type 0 where
  pub slug : Text
  pub quote : CmcQuote F

pub record CmcResponse (F : Type 0) : Type 0 where
  pub data_ : Dict (CmcTicker F)

pub record CoinmarketcapConfig : Type 0 where
  pub api_key : Text

-- The configuration, which is empty if there is none.
unfoldable pub extract_config : (Text → Result CoingeckoConfig) → Text → Result CoingeckoConfig
extract_config unmarshal [] = ok (record { api_key = [] })
extract_config unmarshal (c ∷ config) =
    wrap_error (text "invalid coingecko config: ") (unmarshal (c ∷ config))

unfoldable pub get_config : (Text → Result CoinmarketcapConfig) → Text → Result CoinmarketcapConfig
get_config unmarshal [] = ok (record { api_key = [] })
get_config unmarshal (c ∷ config) =
    wrap_error (text "invalid coinmarketcap config: ") (unmarshal (c ∷ config))

unfoldable pub build_url : SymbolSet → CoingeckoConfig → Result Text
build_url symbols c =
    let free = text_eq c.api_key [] in
    let link =
      if free
      then text "https://api.coingecko.com/api/v3/"
      else text "https://pro-api.coingecko.com/api/v3/" in
    coingecko_symbol_csv symbols >>= λ ids.
    let params = insert (text "vs_currencies") (text "usd") (insert (text "ids") ids []) in
    let all = if free then params else insert (text "x_cg_pro_api_key") c.api_key params in
    ok (link ++ (text "simple/price?" ++ encode_values all))

-- A request, by what `buildReq` sets.
pub record Request : Type 0 where
  pub url : Text
  pub raw_query : Text
  pub header : Dict Text

-- `http.NewRequest`, `http.Client.Do` and `io.ReadAll` of the response's body.
pub record CmcWeb : Type 1 where
  pub Body : Type 0
  pub new_request : Text → Text → Result Request
  pub client_do : Request → Result Body
  pub read_all : Body → Result Text

abbrev link : Text
link = text "https://pro-api.coinmarketcap.com/v2/cryptocurrency/quotes/latest"

-- The caller's error is the text of `fmt.Errorf`, without the error of `http.NewRequest`.
created : Result Request → Result Request
created (ok req) = ok req
created (err e) = err (text "Can not create a request with link: " ++ (link ++ (10 ∷ [])))
created panic = panic

-- The keys of the header are spelled as `http.Header` keeps them. A new request has none of them, so that the second,
-- which is added, has one value.
unfoldable pub build_req :
    (Text → Text → Result Request) → SymbolSet → CoinmarketcapConfig → Result Request
unfolding created
build_req new_request symbols c = created (new_request (text "GET") link) >>= λ req.
    coinmarketcap_symbol_csv symbols >>= λ slugs. ok (record {
      url = req.url;
      raw_query = encode_values (insert (text "slug") slugs []);
      header =
          insert (text "X-Cmc_pro_api_key") c.api_key
            (insert (text "Accepts") (text "application/json") req.header);
    })

module _ {F : Type 0} where
  -- The loop of `extractPricesFromResponse` over the symbols.
  unfoldable pub extract_prices : SymbolSet → Dict (CoingeckoTicker F) → Dict F → Dict F
  extract_prices [] result prices = prices
  extract_prices ((symbol, _) ∷ symbols) result prices =
      extract_prices symbols result (elim (lookup symbol result) [
        | some ticker ↦ insert symbol ticker.price prices
        | none ↦ prices
      ])

  unfoldable pub coingecko_price_update :
      Web
      → (Text → Result CoingeckoConfig)
      → (Text → Result (Dict (CoingeckoTicker F)))
      → Text
      → SymbolSet
      → Fetched F
  coingecko_price_update web unmarshal decode config symbols =
      respond
        (extract_config unmarshal config >>= λ c.
          build_url symbols c >>= λ url. download web decode url)
        λ result. succeeded (extract_prices symbols result [])

  -- The loops of `getPricesFromResponse` over the data, in the order of the map's iteration, and over
  -- the symbols.
  unfoldable pub cmc_prices : Dict (CmcTicker F) → Dict F → Dict F
  cmc_prices [] prices = prices
  cmc_prices ((_, value) ∷ values) prices =
      cmc_prices values (insert value.slug value.quote.usd.price prices)

  unfoldable pub get_prices : SymbolSet → Dict F → Dict F → Dict F
  get_prices [] cmc prices = prices
  get_prices ((symbol, _) ∷ symbols) cmc prices =
      get_prices symbols cmc
        (elim (lookup symbol cmc) [ some price ↦ insert symbol price prices | none ↦ prices ])

  unfoldable pub coinmarketcap_price_update :
      CmcWeb
      → (Text → Result CoinmarketcapConfig)
      → (Text → Result (CmcResponse F))
      → Text
      → SymbolSet
      → Fetched F
  coinmarketcap_price_update web unmarshal decode config symbols =
      respond
        (get_config unmarshal config >>= λ c. build_req web.new_request symbols c >>= λ req.
          web.client_do req >>= λ body. web.read_all body >>= λ response. decode response)
        λ response. succeeded (get_prices symbols (cmc_prices response.data_ []) [])
