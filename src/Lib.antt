-- ===== src/Lib.antt =====
-- The price feeder of the chain's oracle: it asks exchanges for prices, aggregates them, and at each
-- voting period posts a transaction with a vote that reveals the last prices and a prevote that commits
-- to the new ones.
--
-- Parts and how they interact. `feeder/feeder.go` runs the loop: it takes parameters and voting periods
-- from the event stream, asks the price provider for each pair, and hands the prices to the price poster.
-- `feeder/eventstream` makes the events: a websocket brings new blocks, from whose heights the voting
-- periods follow, and a query every ten seconds brings the parameters. `feeder/priceprovider` aggregates
-- several providers, each with a source that fetches the prices of its symbols at every tick and a map of
-- the last ones. `feeder/priceposter` signs and broadcasts. `types` has the values they exchange.
--
-- `cmd/root.go` starts these parts one after the other and, on an interrupt, closes them.
--
-- Which file models what, and how state and operations correspond:
--   - Base: shared helpers. `Text` is a Go string (a list of bytes), `Dict` a Go map as a list of entries
--     in the order of its iteration, `Result` what a Go call comes to: a value, an error, or a panic.
--     Base/Decimal has strconv.ParseUint and the decimal text of a number.
--   - Float: float64 as an interface, and the laws of IEEE 754 that proofs rely on, a hypothesis of the
--     theorems that need them; Sample is a concrete arithmetic that meets the laws, for the tests.
--   - Types: types/price.go, types/params.go (ParamsFromOracleParams, Equal), types/voting_period.go,
--     types/symbol.go, types/tendermint.go (GetBlockHeight).
--   - Provider: feeder/priceprovider/priceprovider.go. `ProviderLoop` is the provider with its loop; an
--     event is what the select of `loop` takes; get_price is GetPrice at a moment, map_values and is_valid
--     are mapValues and isValid, close is Close.
--   - Aggregate: feeder/priceprovider/aggregateprovider.go. aggregate_price is GetPrice over the list of the
--     providers' answers, with the increments of its counter; close_all of Aggregate/Closing is Close. Aggregate/Order
--     is about the random order of the map of providers.
--   - Tick: feeder/priceprovider/sources/tick_source.go, the two selects of its loop, and Close.
--   - Sources: the other files of feeder/priceprovider/sources. Sources/Csv the symbols of a request,
--     Sources/Exchanges okex, ascendex, bybit and mexc, Sources/Lists gateio, bitfinex and binance,
--     Sources/Keyed coingecko and coinmarketcap (Sources/Query is net/url's encoding), Sources/Uniswap
--     uniswap. `Fetched` is what a FetchPricesFunc returns and counts.
--   - Start: NewPriceProvider, the switch over the sources, and NewAggregatePriceProvider.
--   - Config: config/config.go. The environment is a function; get takes the package's map of default
--     symbols and gives it back, since Get writes the override to it.
--   - Keyring: config/keyring.go, the keyring of one key and GetAuth.
--   - PriceText: float64ToDec of feeder/priceposter/oracle.go.
--   - Signing: feeder/priceposter/signing.go, sendTx and getAccount.
--   - Poster: feeder/priceposter/oracle.go and client.go. `Client` keeps the previous prevote;
--     new_prevote, prepare_vote, vote and send_prices are the functions of these names; Poster/Dial has
--     Dial, Whoami and Close, Poster/Retry tryUntilDone of util.go.
--   - Feeder: feeder/feeder.go, its loop over the events, and the calls that it makes, in order.
--   - Stream: feeder/eventstream/stream.go. `Step` is one step of either loop, of the feeder that receives,
--     or of Close; `Reach` are the states that any order of such steps can reach. Stream/Dial has Dial and
--     the two channels that the feeder reads. Grpc: the connection that Dial of the stream and of the poster open.
--   - Websocket: feeder/eventstream/websocket.go, the loop, connect and close by events and close as a function; Websocket/Dial
--     has the dial with its opening message.
--   - Prefixes: utils/config.go, InitSDKConfig.
--   - Command: cmd/root.go. root_run is Run down to the server of the metrics, with connect_parts for what comes
--     after the configuration; setup_logger, handle_interrupt and execute are the functions of these names,
--     version is cmd/version.go. Command/Life follows a started daemon to what its votes reveal.
--   - System: the goroutines of feeder/feeder.go and feeder/priceprovider together. A `SystemStep` is one
--     update of a provider, one call of GetPrice of the aggregate, or one step of the feeder's loop;
--     System/Spec is the abstract view, in which a source is a function from symbols to prices.
--     System/Quotes and System/Range are about the range of the prices from the sources to a post.
--   - Joined: the event stream and System, joined by the channels ParamsUpdate and VotingPeriodStarted of
--     feeder/eventstream/stream.go, from the end of feeder.Run on.
--   - Tests: the theorems at concrete inputs.
--
-- Bounds and fuel. Heights are uint64 and wrap at 2^64. Durations are natural numbers of nanoseconds or
-- seconds, so time.Since never is negative here. `connect` runs on fuel 11: it dials at most eleven times
-- before Fatal, and Websocket/Backoff shows that the fuel is never used up. The decimal text of a number
-- runs on as much fuel as the number, and Base/Decimal shows that it reads back.
--
-- Within one call of GetPrice of the aggregate the providers are asked at one point of the run of System, each at its
-- own moment: an update of a provider that comes before or after its answer can be moved before or after the call,
-- since each provider is asked once in it.
--
-- Not modelled. Logging; HTTP, gRPC, JSON decoding and the cryptography of other packages, which are
-- parameters, as are the SDK's configuration and the websocket's dialer; the values of NewBlockJSON that
-- are never read. `time.After`, contexts and their timeouts show only as the errors that they cause. Parsing of the
-- command line, the HTTP server of the metrics, the metrics' declaration and the mocks have no models.
pub mod Base
pub mod Float
pub mod Grpc
pub mod Sample
pub mod Types
pub mod Provider
pub mod Aggregate
pub mod PriceText
pub mod Signing
pub mod Poster
pub mod Feeder
pub mod Stream
pub mod Websocket
pub mod Config
pub mod Keyring
pub mod Prefixes
pub mod Command
pub mod Start
pub mod Tick
mod Tests
pub mod Sources
pub mod System
pub mod Joined
