-- ===== src/Config.antt =====
-- config/config.go: the configuration from the environment. The environment is what `os.Getenv` reads
-- after `godotenv.Load`. Parsing JSON, pairs and addresses is code of other packages: parameters.
pub mod Loaded
use pricefeeder.Base.{
  wrap_error, Bool, Option, none, some, List, [], ◌∷◌, ◌++◌, Text, text, text_eq, Dict, insert,
  if◌then◌else◌, Result, ok, err, panic, ◌>>=◌, ◌>>◌, must,
}
use pricefeeder.Types.{Symbol, Pair}

-- The symbols of each exchange by pair.
abbrev pub SymbolMaps : Type 0
SymbolMaps = Dict (Dict Symbol)

pub record Config : Type 0 where
  pub exchanges_to_pair_to_symbol_map : SymbolMaps
  pub data_source_config_map : Dict Text
  pub grpc_endpoint : Text
  pub websocket_endpoint : Text
  pub feeder_mnemonic : Text
  pub chain_id : Text
  pub validator_addr : Option Text
  pub enable_tls : Bool

pub record ConfigDeps : Type 0 where
  pub unmarshal_symbols : Text → Result (Dict (Dict Text))
  pub unmarshal_sources : Text → Result (Dict Text)
  -- `asset.MustNewPair`
  pub must_new_pair : Text → Result Pair
  -- `sdk.ValAddressFromBech32`, `none` for an error
  pub val_address : Text → Option Text

-- `defaultExchangeSymbolsMap`, a variable of the package.
abbrev pub default_exchange_symbols_map : SymbolMaps
default_exchange_symbols_map =
    (
      text "bitfinex",
      (text "ubtc:uusd", text "tBTCUSD")
          ∷ (text "ueth:uusd", text "tETHUSD")
          ∷ (text "uusdc:uusd", text "tUDCUSD")
          ∷ (text "uusdt:uusd", text "tUSTUSD")
          ∷ (text "uatom:uusd", text "tATOUSD")
          ∷ [],
    )
    ∷ (
      text "gateio",
      (text "ubtc:uusd", text "BTC_USDT")
          ∷ (text "ueth:uusd", text "ETH_USDT")
          ∷ (text "uusdc:uusd", text "USDC_USDT")
          ∷ (text "uusdt:uusd", text "USDT_USD")
          ∷ (text "uatom:uusd", text "ATOM_USDT")
          ∷ [],
    )
    ∷ (
      text "okex",
      (text "ubtc:uusd", text "BTC-USDT")
          ∷ (text "ueth:uusd", text "ETH-USDT")
          ∷ (text "uusdc:uusd", text "USDC-USDT")
          ∷ (text "uusdt:uusd", text "USDT-USDC")
          ∷ (text "uatom:uusd", text "ATOM-USDT")
          ∷ [],
    )
    ∷ (
      text "bybit",
      (text "ubtc:uusd", text "BTCUSDT")
          ∷ (text "ueth:uusd", text "ETHUSDT")
          ∷ (text "uusdc:uusd", text "USDCUSDT")
          ∷ (text "uatom:uusd", text "ATOMUSDT")
          ∷ [],
    )
    ∷ (text "mexc", (text "avsg:ausd", text "VSGUSDT") ∷ [])
    ∷ (text "ascendex", (text "avsg:ausd", text "VSG/USDT") ∷ [])
    ∷ []

unfoldable pub validate : Config → Result (Unit {0})
validate c =
    if text_eq c.chain_id []
    then err (text "no chain id")
    else if text_eq c.feeder_mnemonic []
    then err (text "no feeder mnemonic")
    else if text_eq c.websocket_endpoint []
    then err (text "no websocket endpoint")
    else if text_eq c.grpc_endpoint []
    then err (text "no grpc endpoint")
    else ok tt

-- The error of the sources' JSON is not part of the message.
invalid_json : {A : Type 0} → Result A → Result A
invalid_json (ok a) = ok a
invalid_json (err e) = err (text "failed to parse DATASOURCE_CONFIG_MAP: invalid json")
invalid_json panic = panic

module _ (deps : ConfigDeps) where
  open deps use {unmarshal_symbols, unmarshal_sources, must_new_pair, val_address}

  -- The inner loop of the override, over the pairs of one exchange.
  unfoldable pub set_pairs : Dict Text → Dict Symbol → Result (Dict Symbol)
  set_pairs [] symbols = ok symbols
  set_pairs ((pair, ticker) ∷ rest) symbols =
      must_new_pair pair >>= λ p. set_pairs rest (insert p ticker symbols)

  -- The outer loop: each exchange that is named gets a new map.
  unfoldable pub override_maps : Dict (Dict Text) → SymbolMaps → Result SymbolMaps
  override_maps [] maps = ok maps
  override_maps ((exchange, symbols) ∷ rest) maps =
      set_pairs symbols [] >>= λ m. override_maps rest (insert exchange m maps)

  unfoldable pub overridden : Text → SymbolMaps → Result SymbolMaps
  overridden [] defaults = ok defaults
  overridden (c ∷ json) defaults =
      wrap_error (text "failed to parse EXCHANGE_SYMBOLS_MAP: ") (unmarshal_symbols (c ∷ json))
      >>= λ overrides. override_maps overrides defaults

  source_configs : Text → Result (Dict Text)
  unfolding invalid_json
  source_configs [] = ok []
  source_configs (c ∷ json) = invalid_json (unmarshal_sources (c ∷ json))

  -- An address that does not parse is passed over.
  validator_of : Text → Option Text
  validator_of [] = none
  validator_of (c ∷ s) = val_address (c ∷ s)

  -- The rest of `Get`, with the maps after the override. A configuration that comes with an error is left
  -- out: no caller reads it.
  unfoldable pub with_maps : (Text → Text) → SymbolMaps → Result Config
  unfolding source_configs validator_of
  with_maps getenv maps = source_configs (getenv (text "DATASOURCE_CONFIG_MAP")) >>= λ sources.
      let conf : Config = record {
        exchanges_to_pair_to_symbol_map = maps;
        data_source_config_map = sources;
        grpc_endpoint = getenv (text "GRPC_ENDPOINT");
        websocket_endpoint = getenv (text "WEBSOCKET_ENDPOINT");
        feeder_mnemonic = getenv (text "FEEDER_MNEMONIC");
        chain_id = getenv (text "CHAIN_ID");
        validator_addr = validator_of (getenv (text "VALIDATOR_ADDRESS"));
        enable_tls = text_eq (getenv (text "ENABLE_TLS")) (text "true");
      } in
      validate conf >> ok conf

  get_with : (Text → Text) → Result SymbolMaps → SymbolMaps → Result Config × SymbolMaps
  get_with getenv (ok maps) defaults = (with_maps getenv maps, maps)
  get_with getenv (err e) defaults = (err e, defaults)
  get_with getenv panic defaults = (panic, defaults)

  -- `Get`, with the package's map before and after: the configuration shares it, and the override writes
  -- to it.
  unfoldable pub get : (Text → Text) → SymbolMaps → Result Config × SymbolMaps
  unfolding get_with
  get getenv defaults =
      get_with getenv (overridden (getenv (text "EXCHANGE_SYMBOLS_MAP")) defaults) defaults

  unfoldable pub must_get : (Text → Text) → SymbolMaps → Result Config × SymbolMaps
  must_get getenv defaults = let (conf, after) = get getenv defaults in (must conf, after)
