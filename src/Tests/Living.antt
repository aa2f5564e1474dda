-- ===== src/Tests/Living.antt =====
-- A started daemon (cmd/root.go) through one voting period, from its start to what its vote reveals.
use mathlib.Core.List.Perm
use pricefeeder.Base.{
  ◌≡◌, refl, ◌⊎◌, true, false, some, none, List, [], ◌∷◌, Text, text, text_eq, ok, lookup, decimal,
  Dict,
}
use pricefeeder.Sample.{Number, pos, number_float, print}
use pricefeeder.Types.{Symbol, Pair, Price, VotingPeriod}
use pricefeeder.Provider.{get_price, new_provider, ProviderLoop, map_values}
use pricefeeder.Tick.{new_tick_source}
use pricefeeder.Aggregate.{aggregate_price, ask_all}
use pricefeeder.Feeder.{gather_price, send_prices, run, new_feeder}
use pricefeeder.Grpc.{dial_grpc}
use pricefeeder.Prefixes.{init_sdk_config}
use pricefeeder.Config.{must_get, get, with_maps, overridden, validate}
use pricefeeder.Keyring.{get_auth, new_priv_key_keyring, hex_encode, hex_decode}
use pricefeeder.Start.{new_aggregate, new_price_provider, source_of, Started}
use pricefeeder.Stream.Dial as StreamDial
use pricefeeder.Poster.Dial as PosterDial
use pricefeeder.Signing.{Msg, prevote_msg, vote_msg, send_tx, get_account}
use pricefeeder.PriceText.{cut_price, split_at, decimal_part, float64_to_dec}
use pricefeeder.Poster.{
  Deps, Prevote, Client, new_prevote, prepare_vote, round_msgs, exchange_rates,
}
use pricefeeder.Poster
use pricefeeder.Poster.Chain.{run_rounds, IsText}
use pricefeeder.System.{
  selecting, System, SystemReach, period_began, pair_asked, prices_sent, start, next,
}
use pricefeeder.System.Posted.{told, IsPost}
use pricefeeder.Websocket.{new_websocket}
use pricefeeder.Websocket.Dial.{new_dial}
use pricefeeder.Stream.{new_stream}
use pricefeeder.Sources.Exchanges.{okex_price_update}
use pricefeeder.Command.{
  info_level, setup_logger, Daemon, root_run, connect_parts, validator_address,
}
use pricefeeder.Command.Life.{system_of, daemon-reveals}
use pricefeeder.Tests.Posting.{oracle_lib}
use pricefeeder.Tests.Posting
use pricefeeder.Tests.Starting.{root_deps, plain, defaults, globals, first_params, derived-IsBytes}
use pricefeeder.Tests.Starting

abbrev btc : Pair
btc = text "ubtc:uusd"

abbrev mapping : Dict Symbol
mapping = (btc, text "BTC-USDT") ∷ []

abbrev okex : ProviderLoop Number
okex = record {
  provider = record {
    source_name = text "okex";
    pair_to_symbol_mapping = mapping;
    last_prices = [];
  };
  running = true;
  exits = [];
}

abbrev okex_source : Started Number
okex_source = record {
  fetch_prices = okex_price_update Starting.source_deps.web Starting.source_deps.okex;
  symbols = map_values mapping;
  source = new_tick_source;
  loop = okex;
}

abbrev fresh_client : Client
fresh_client = record { validator = text "addr"; feeder = text "addr"; previous_prevote = none }

abbrev dm : Daemon Number root_deps
dm = record {
  level = info_level;
  globals = record { default_power_reduction = 10; config = text "vscvalcons" };
  config = Starting.loaded defaults;
  event_stream = record {
    oracle = text "GRPC_ENDPOINT";
    websocket =
        new_websocket
          (new_dial root_deps.ws_dialer (text "WEBSOCKET_ENDPOINT") StreamDial.new_block_subscribe);
    stream = new_stream;
  };
  price_provider = okex_source ∷ [];
  key_base = Starting.keyring;
  client = fresh_client;
  client_deps = record {
    oracle_client = text "GRPC_ENDPOINT";
    auth_client = text "GRPC_ENDPOINT";
    tx_client = text "GRPC_ENDPOINT";
    key_base = Starting.keyring;
    registered = PosterDial.eth_account ∷ PosterDial.eth_pub_key ∷ PosterDial.eth_priv_key ∷ [];
    chain_id = text "CHAIN_ID";
  };
  feeder = record {
    params = record { pairs = btc ∷ []; vote_period_blocks = 30 };
    running = true;
    calls = [];
  };
}

up : root_run root_deps false plain defaults globals first_params ≡ ok dm
unfolding root_run init_sdk_config must_get get with_maps overridden text_eq validate connect_parts
    StreamDial.dial PosterDial.dial dial_grpc new_aggregate new_price_provider source_of get_auth
    new_priv_key_keyring hex_encode hex_decode run new_feeder validator_address new_provider
    setup_logger
up = refl

abbrev vp : VotingPeriod
vp = record { height = 60 }

-- No price has been fetched yet.
abbrev price : Price Number
price = record { pair = btc; price = pos 0; source_name = text "missing"; valid = false }

abbrev after_period : System Number
after_period = record {
  feeder = record (dm.feeder) { calls = send_prices vp (price ∷ []) ∷ [] };
  phase = selecting;
  providers = okex ∷ [];
}

reached : SystemReach (system_of root_deps dm) after_period
unfolding aggregate_price ask_all get_price lookup text_eq gather_price
reached =
    next
      (next (next start (period_began vp refl refl))
        (pair_asked vp btc [] [] ((9, okex) ∷ []) price refl (Perm.refl _) refl))
      (prices_sent vp (price ∷ []) refl)

abbrev prevote : Prevote
prevote = record {
  msg = prevote_msg (text "9998(ubtc:uusd,0)addr") (text "addr") (text "addr");
  salt = text "9998";
  vote = text "(ubtc:uusd,0)";
}

-- The chain holds the hash of the first prevote.
abbrev holding : Deps
holding = record Posting.deps { aggregate_prevote = λ v. ok (text "9998(ubtc:uusd,0)addr") }

abbrev revealing : List Msg
revealing =
    vote_msg (text "9998") (text "(ubtc:uusd,0)") (text "addr") (text "addr") ∷ prevote.msg ∷ []

daemon-reveals_example :
    (revealing ≡ prevote.msg ∷ [])
    ⊎ ((vp : VotingPeriod) × (prices : List (Price Number)) × (salt : Text) × (rates : Text)
        × IsPost (told reached) (vp, prices)
        × IsText oracle_lib prices rates
        × (revealing ≡ vote_msg salt rates (text "addr") (text "addr") ∷ prevote.msg ∷ []))
unfolding run_rounds Poster.send_prices new_prevote round_msgs prepare_vote Poster.vote send_tx
    get_account float64_to_dec cut_price print decimal text_eq split_at decimal_part exchange_rates
daemon-reveals_example =
    daemon-reveals root_deps false plain defaults globals first_params dm derived-IsBytes up
      oracle_lib reached (Posting.deps ∷ [])
      (record fresh_client { previous_prevote = some prevote }) ((price ∷ []) ∷ []) holding prevote
      revealing refl refl
