-- ===== src/Sources.antt =====
-- feeder/priceprovider/sources: what the price sources share. HTTP, the JSON decoder and the parser of
-- floating point numerals are parameters; a response is the value that the decoder gives.
pub mod Csv
pub mod Tickers
pub mod Exchanges
pub mod Lists
pub mod Query
pub mod Keyed
pub mod Uniswap
use pricefeeder.Base.{
  ℕ, Bool, true, false, Option, none, some, List, [], ◌∷◌, Text, Dict, insert, has, not,
  if◌then◌else◌, Result, ok, err, panic, ◌>>=◌,
}
use pricefeeder.Float.{Float}
use pricefeeder.Types.{Symbol}
use pricefeeder.Provider.{SymbolSet}

-- `http.Get` and `io.ReadAll` of the response's body.
pub record Web : Type 1 where
  pub Body : Type 0
  pub http_get : Text → Result Body
  pub read_all : Body → Result Text

-- What a `FetchPricesFunc` returns, and the success labels of its increments of the counter
-- `fetched_prices_total`.
pub record Fetched (F : Type 0) : Type 0 where
  pub counts : List Bool
  pub prices : Result (Dict F)

-- The body of the response, decoded.
unfoldable pub download : {R : Type 0} → Web → (Text → Result R) → Text → Result R
download web decode url = web.http_get url >>= λ body. web.read_all body >>= λ bytes. decode bytes

-- Each error up to the decoding is counted and returned; `k` goes on with the response.
unfoldable pub respond : {F R : Type 0} → Result R → (R → Fetched F) → Fetched F
respond (ok response) k = k response
respond (err e) k = record { counts = false ∷ []; prices = err e }
respond panic k = record { counts = []; prices = panic }

abbrev pub succeeded : {F : Type 0} → Dict F → Fetched F
succeeded prices = record { counts = true ∷ []; prices = ok prices }

-- A loop over the tickers of a response, whose body changes the map of prices.
unfoldable pub for_tickers : {F T : Type 0} → (T → Dict F → Dict F) → List T → Dict F → Dict F
for_tickers put [] prices = prices
for_tickers put (ticker ∷ tickers) prices = for_tickers put tickers (put ticker prices)
