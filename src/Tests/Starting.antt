-- ===== src/Tests/Starting.antt =====
-- The configuration (config/config.go) in concrete environments, the start of the providers
-- and the keyring (config/keyring.go).
use mathlib.Core.Path.{subst}
use pricefeeder.Keyring.{
  KeyDeps, PrivKeyKeyring, get_auth, new_priv_key_keyring, hex_encode, hex_decode,
}
use pricefeeder.Keyring.Auth.{IsBytes, Holds, get_auth-Holds}
use pricefeeder.Base.{
  ◌++◌, ok-injective, ◌≡◌, refl, true, false, Option, some, none, Result, List, [], ◌∷◌, Text, text,
  text_eq, Dict, lookup, insert, if◌then◌else◌, ok, err, panic, arith, ℕ, ◌==◌, ◌/◌, ◌*◌, ◌⊎◌, map,
}
use pricefeeder.Types.{Params}
use pricefeeder.Grpc.{dial_grpc}
use pricefeeder.Prefixes.{Globals, init_sdk_config}
use pricefeeder.Stream.Dial as StreamDial
use pricefeeder.Poster.Dial as PosterDial
use pricefeeder.Poster.Dial.{whoami}
use pricefeeder.Feeder.{run, new_feeder}
use pricefeeder.Command.{RootDeps, Daemon, validator_address, connect_parts, root_run}
use pricefeeder.Command.Running.{IsRunning}
use pricefeeder.Command.Ends.{root_run-starts}
use pricefeeder.Sample.{Number, pos, number_float}
use pricefeeder.Start.{SourceDeps, Started, new_aggregate, new_price_provider, source_of}
use pricefeeder.Start.Known.{all_known, is_one_of, serves, entry, new_aggregate-starts}
use pricefeeder.Config.{
  SymbolMaps, Config, ConfigDeps, default_exchange_symbols_map, validate, set_pairs, override_maps,
  overridden, with_maps, get, must_get,
}
use pricefeeder.Config.Loaded.{Override, overridden-Override, IsComplete, must_get-IsComplete}

abbrev pub overrides : Dict (Dict Text)
overrides = (text "okex", (text "ubtc:uusd", text "BTC-USDC") ∷ []) ∷ []

abbrev pub deps : ConfigDeps
deps = record {
  unmarshal_symbols = λ json. ok overrides;
  unmarshal_sources = λ json. ok [];
  must_new_pair = λ pair. ok pair;
  val_address = λ s. none;
}

-- Every variable is set to its own name, but for the two of JSON.
abbrev pub environment : Text → Text → Text
environment symbols name =
    if text_eq name (text "EXCHANGE_SYMBOLS_MAP")
    then symbols
    else if text_eq name (text "DATASOURCE_CONFIG_MAP")
    then []
    else name

abbrev overriding : Text → Text
overriding = environment (text "{...}")

abbrev pub plain : Text → Text
plain = environment []

abbrev pub defaults : SymbolMaps
defaults = (text "okex", (text "ubtc:uusd", text "BTC-USDT") ∷ []) ∷ []

abbrev after_override : SymbolMaps
after_override = (text "okex", (text "ubtc:uusd", text "BTC-USDC") ∷ []) ∷ []

abbrev pub loaded : SymbolMaps → Config
loaded maps = record {
  exchanges_to_pair_to_symbol_map = maps;
  data_source_config_map = [];
  grpc_endpoint = text "GRPC_ENDPOINT";
  websocket_endpoint = text "WEBSOCKET_ENDPOINT";
  feeder_mnemonic = text "FEEDER_MNEMONIC";
  chain_id = text "CHAIN_ID";
  validator_addr = none;
  enable_tls = false;
}

overridden-Override_example :
    Override deps
      (lookup (text "okex") overrides)
      (lookup (text "okex") defaults)
      (lookup (text "okex") after_override)
unfolding overridden override_maps set_pairs insert text_eq lookup
overridden-Override_example =
    overridden-Override deps (text "{...}") overrides defaults after_override (text "okex")
      (λ e. ground arith) refl (refl, tt) refl

must_get-IsComplete_example :
    IsComplete deps overriding defaults (loaded after_override) after_override
unfolding must_get get with_maps overridden override_maps set_pairs insert text_eq validate
must_get-IsComplete_example =
    must_get-IsComplete deps overriding defaults (loaded after_override) after_override refl

-- A web that is down.
abbrev pub source_deps : SourceDeps Number
source_deps = record {
  web = record {
    Body = Text;
    http_get = λ url. err (text "no such host");
    read_all = λ body. ok body;
  };
  cmc_web = record {
    Body = Text;
    new_request = λ method link. err (text "bad method");
    client_do = λ req. err (text "no such host");
    read_all = λ body. ok body;
  };
  bitfinex = λ content. ok [];
  show_ticker = λ ticker. text "?";
  binance = λ content. ok [];
  coingecko_config = λ config. ok (record { api_key = config });
  coingecko = λ content. ok [];
  okex = λ content. ok (record { tickers = [] });
  gateio = λ content. ok [];
  coinmarketcap_config = λ config. ok (record { api_key = config });
  coinmarketcap = λ content. ok (record { data_ = [] });
  bybit = λ content. ok (record { list = [] });
  ethereum = record {
    Client = Unit {0};
    Abi = Unit {0};
    Address = Text;
    dial = λ url. err (text "no such host");
    abi_json = λ json. ok tt;
    hex_to_address = λ address. address;
    pack = λ abi name. ok name;
    call_contract = λ client address call. ok address;
    unpack = λ abi name result. ok (4, 4);
  };
  big_float = record {
    Big = ℕ;
    set_int = λ n. n;
    big_zero = 0;
    same = λ a b. a == b;
    quo = λ a b. a / b;
    times = λ a b. a * b;
    float64 = pos;
  };
  percent_f = λ x. text "?";
  mexc = λ content. ok [];
  ascendex = λ content. ok (record { code = 0; tickers = [] });
}

new_aggregate-starts_example :
    ((all_known default_exchange_symbols_map ≡ true)
      × (ps : List (Started Number)) × (new_aggregate source_deps default_exchange_symbols_map []
          ≡ ok ps)
      × (map (serves source_deps) ps ≡ map (entry source_deps) default_exchange_symbols_map))
    ⊎ ((all_known default_exchange_symbols_map ≡ false)
        × (new_aggregate source_deps default_exchange_symbols_map [] ≡ panic))
new_aggregate-starts_example = new_aggregate-starts source_deps default_exchange_symbols_map []

-- The exchanges of the defaults have sources.
default_exchanges_test : all_known default_exchange_symbols_map ≡ true
unfolding all_known is_one_of text_eq
default_exchanges_test = refl

abbrev pub derived : Text
derived = 10 ∷ 255 ∷ 0 ∷ []

abbrev pub key_deps : KeyDeps
key_deps = record {
  new_seed = λ mnemonic. mnemonic;
  derive = λ seed path. ok derived;
  pub_key = λ priv. 2 ∷ priv;
  address = λ pub_key. text "addr";
  sign = λ priv msg. ok (priv ++ msg);
  new_local_record = λ addr priv pub_key. ok addr;
}

abbrev pub keyring : PrivKeyKeyring
keyring = record { addr = text "addr"; pub_key = 2 ∷ derived; priv_key = derived }

pub derived-IsBytes : (seed path priv : Text) → key_deps.derive seed path ≡ ok priv → IsBytes priv
derived-IsBytes seed path priv e =
    subst IsBytes (ok-injective e) (omega arith, (omega arith, (omega arith, tt)))

get_auth-Holds_example :
    (priv : Text) × (ok derived ≡ ok priv)
    × (text "addr" ≡ text "addr")
    × (text "addr" ≡ text "addr")
    × Holds key_deps keyring priv (text "addr")
unfolding get_auth new_priv_key_keyring hex_encode hex_decode
get_auth-Holds_example =
    get_auth-Holds key_deps (text "abandon ability able") keyring (text "addr") (text "addr")
      derived-IsBytes refl

-- A command whose dials go through; the SDK keeps the last prefix that was set.
abbrev pub root_deps : RootDeps Number
root_deps = record {
  sdk = record {
    SdkConfig = Text;
    set_bech32_prefix_for_account = λ prefix pub_key c. some prefix;
    set_bech32_prefix_for_validator = λ prefix pub_key c. some prefix;
    set_bech32_prefix_for_consensus_node = λ prefix pub_key c. some prefix;
    seal = λ c. c;
    account_address_prefix = text "vsc";
    power_reduction = 10;
  };
  config_deps = deps;
  dialer = record { Conn = Text; grpc_dial = λ endpoint transport. ok endpoint };
  ws_dialer = record { Conn = ℕ; dial = λ url n. some n; write_message = λ conn msg. true };
  source_deps = source_deps;
  key_deps = key_deps;
}

abbrev pub globals : Globals root_deps.sdk
globals = record { default_power_reduction = 1; config = [] }

abbrev pub first_params : Option Params
first_params = some (record { pairs = text "ubtc:uusd" ∷ []; vote_period_blocks = 30 })

abbrev launched : Result (Daemon Number root_deps)
launched = root_run root_deps false plain defaults globals first_params

root_run-starts_example :
    ((dm : Daemon Number root_deps) × (launched ≡ ok dm)
      × IsRunning root_deps false plain defaults globals first_params dm)
    ⊎ (launched ≡ panic)
root_run-starts_example =
    root_run-starts root_deps false plain defaults globals first_params derived-IsBytes

abbrev facts : Result (Daemon Number root_deps) → Option (Text × Text × Text × Params)
facts (ok dm) = some (dm.globals.config, dm.event_stream.oracle, whoami dm.client, dm.feeder.params)
facts _ = none

root_run_test :
    facts launched
    ≡ some (
      text "vscvalcons",
      text "GRPC_ENDPOINT",
      text "addr",
      record { pairs = text "ubtc:uusd" ∷ []; vote_period_blocks = 30 },
    )
unfolding root_run init_sdk_config must_get get with_maps overridden text_eq validate connect_parts
    StreamDial.dial PosterDial.dial dial_grpc new_aggregate new_price_provider source_of get_auth
    new_priv_key_keyring hex_encode hex_decode run new_feeder validator_address whoami
root_run_test = refl
