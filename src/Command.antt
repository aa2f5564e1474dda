-- ===== src/Command.antt =====
-- cmd/root.go: the command starts the parts one after the other and connects them; cmd/version.go
-- prints the version. Parsing of the command line is code of another package.

pub mod Prefixed
pub mod Running
pub mod Ends
pub mod Life
use pricefeeder.Base.{
  ℕ, Bool, if◌then◌else◌, Option, none, some, List, Text, text, Result, ok, err, panic, ◌>>=◌,
}
use pricefeeder.Float.{Float}
use pricefeeder.Types.{Params}
use pricefeeder.Grpc.{Dialer}
use pricefeeder.Prefixes.{Sdk, Globals, init_sdk_config}
use pricefeeder.Config.{SymbolMaps, Config, ConfigDeps, must_get}
use pricefeeder.Websocket.Dial.{WsDialer}
use pricefeeder.Stream.Dial as StreamDial
use pricefeeder.Stream.Dial.{Dialed}
use pricefeeder.Start.{SourceDeps, Started, new_aggregate}
use pricefeeder.Keyring.{KeyDeps, PrivKeyKeyring, get_auth}
use pricefeeder.Poster.{Client}
use pricefeeder.Poster.Dial as PosterDial
use pricefeeder.Poster.Dial.{ClientDeps}
use pricefeeder.Feeder.{Feeder, new_feeder, run, feeder_step, stop_received}

-- The global level of the logger.
pub data Level : Type 0 where
  info_level debug_level : Level

unfoldable pub setup_logger : Bool → Level
setup_logger debug = if debug then debug_level else info_level

-- What the parts call.
pub record RootDeps (F : Type 0) : Type 1 where
  pub sdk : Sdk
  pub config_deps : ConfigDeps
  pub dialer : Dialer
  pub ws_dialer : WsDialer
  pub source_deps : SourceDeps F
  pub key_deps : KeyDeps

pub record Daemon (F : Type 0) (deps : RootDeps F) : Type 0 where
  pub level : Level
  pub globals : Globals deps.sdk
  pub config : Config
  pub event_stream : Dialed deps.dialer
  pub price_provider : List (Started F)
  pub key_base : PrivKeyKeyring
  pub client : Client
  pub client_deps : ClientDeps deps.dialer
  pub feeder : Feeder F

-- The configured address takes the place of the key's own.
unfoldable pub validator_address : Option Text → Text → Text
validator_address none own = own
validator_address (some configured) own = configured

module _ {F : Type 0} ⦃d : Float F⦄ (deps : RootDeps F) where
  -- The part of `Run` behind the configuration, down to the metrics server. `init_params` are the
  -- first parameters of the stream, `none` if they do not come in time.
  unfoldable pub connect_parts :
      (debug : Bool) (init_params : Option Params) (after : Globals deps.sdk) (c : Config)
      → Result (Daemon F deps)
  connect_parts debug init_params after c = do
    event_stream ←
        StreamDial.dial deps.dialer deps.ws_dialer c.websocket_endpoint c.grpc_endpoint c.enable_tls
    price_provider ←
        new_aggregate deps.source_deps c.exchanges_to_pair_to_symbol_map c.data_source_config_map
    (kb, val_addr, feeder_addr) ← get_auth deps.key_deps c.feeder_mnemonic
    (client, client_deps) ←
        PosterDial.dial deps.dialer c.grpc_endpoint c.chain_id c.enable_tls kb
          (validator_address c.validator_addr val_addr) feeder_addr
    f ← run init_params new_feeder
    ok (record {
      level = setup_logger debug;
      globals = after;
      config = c;
      event_stream = event_stream;
      price_provider = price_provider;
      key_base = kb;
      client = client;
      client_deps = client_deps;
      feeder = f;
    })

  -- `Run` of the command.
  unfoldable pub root_run :
      (debug : Bool) (getenv : Text → Text) (defaults : SymbolMaps) (globals : Globals deps.sdk)
      (init_params : Option Params)
      → Result (Daemon F deps)
  root_run debug getenv defaults globals init_params = init_sdk_config deps.sdk globals >>= λ after.
      (must_get deps.config_deps getenv defaults).0 >>= λ c. connect_parts debug init_params after c

-- On an interrupt: the feeder after `Close`, and the code of the exit.
unfoldable pub handle_interrupt : {F : Type 0} ⦃d : Float F⦄ → Feeder F → Feeder F × ℕ
handle_interrupt f = (feeder_step stop_received f, 1)

-- What the command `version` prints.
unfoldable pub version : Text
version = text "v1.0.3"

-- `Execute`, and `main` which calls it: the code of the exit. A panic ends a Go program with 2.
unfoldable pub execute : Result (Unit {0}) → ℕ
execute (ok done) = 0
execute (err e) = 1
execute panic = 2
