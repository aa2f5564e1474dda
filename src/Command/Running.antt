-- ===== src/Command/Running.antt =====
-- What a started daemon consists of.
use mathlib.Core.Path.{subst}
use pricefeeder.Base.{
  ◌≡◌, ◌∙◌, refl, ap, sym, inl, inr, Bool, true, false, Option, none, some, List, [], map, All,
  Text, text, if◌then◌else◌, ok, must-eq-ok, >>=-eq-ok, ok-injective, through, Dict, arith,
}
use pricefeeder.Float.{Float}
use pricefeeder.Types.{Symbol, Params}
use pricefeeder.Grpc.{dial_grpc, transport_dial_opt, with_tls, with_insecure}
use pricefeeder.Prefixes.{Globals, init_sdk_config, validator}
use pricefeeder.Websocket.{new_websocket}
use pricefeeder.Websocket.Dial.{new_dial}
use pricefeeder.Stream.{new_stream}
use pricefeeder.Stream.Dial.{new_block_subscribe}
use pricefeeder.Config.{SymbolMaps, Config, must_get}
use pricefeeder.Config.Loaded.{IsComplete, must_get-IsComplete}
use pricefeeder.Stream.Dial as StreamDial
use pricefeeder.Provider.{ProviderLoop}
use pricefeeder.Start.{Started, new_aggregate}
use pricefeeder.Start.Known.{serves, entry, new_aggregate-starts, new_aggregate-alive}
use pricefeeder.Keyring.{PrivKeyKeyring, get_auth}
use pricefeeder.Keyring.Auth.{IsBytes, Holds, get_auth-Holds}
use pricefeeder.Poster.Dial as PosterDial
use pricefeeder.Poster.Dial.{whoami}
use pricefeeder.Poster.{Client}
use pricefeeder.Feeder.{Feeder, run, new_feeder}
use pricefeeder.Command.{
  RootDeps, Daemon, debug_level, info_level, setup_logger, validator_address, connect_parts,
  root_run,
}
use pricefeeder.Command.Prefixed.{IsPrefixed, init_sdk_config-IsPrefixed}

module _ {F : Type 0} ⦃d : Float F⦄ (deps : RootDeps F) where
  pub record IsRunning (debug : Bool) (getenv : Text → Text) (defaults : SymbolMaps)
      (globals : Globals deps.sdk) (init_params : Option Params) (dm : Daemon F deps) : Type 0 where
    pub level : dm.level ≡ (if debug then debug_level else info_level)
    pub prefixed : IsPrefixed deps.sdk globals dm.globals
    pub maps : SymbolMaps
    pub complete : IsComplete deps.config_deps getenv defaults dm.config maps
    pub priv : Text
    pub derived :
        deps.key_deps.derive
          (deps.key_deps.new_seed dm.config.feeder_mnemonic)
          (text "m/44'/118'/0'/0/0")
        ≡ ok priv
    pub signs : Holds deps.key_deps dm.key_base priv dm.client.feeder
    pub votes_for_own : dm.config.validator_addr ≡ none → whoami dm.client ≡ dm.client.feeder
    pub votes_for :
        (validator : Text)
        → dm.config.validator_addr ≡ some validator
        → whoami dm.client ≡ validator
    pub no_prevote : dm.client.previous_prevote ≡ none
    pub serving :
        map (serves deps.source_deps) dm.price_provider
        ≡ map (entry deps.source_deps) dm.config.exchanges_to_pair_to_symbol_map
    pub alive : All (λ (l : ProviderLoop F). l.running ≡ true) (map (λ p. p.loop) dm.price_provider)
    pub connected :
        deps.dialer.grpc_dial dm.config.grpc_endpoint
          (if dm.config.enable_tls then with_tls false else with_insecure)
        ≡ ok dm.event_stream.oracle
    pub connected_client : dm.client_deps.oracle_client ≡ dm.event_stream.oracle
    pub reading :
        dm.event_stream.websocket
        ≡ new_websocket (new_dial deps.ws_dialer dm.config.websocket_endpoint new_block_subscribe)
    pub streaming : dm.event_stream.stream ≡ new_stream
    pub chain : dm.client_deps.chain_id ≡ dm.config.chain_id
    pub keeps : dm.client_deps.key_base ≡ dm.key_base
    pub told : init_params ≡ some dm.feeder.params
    pub runs : dm.feeder.running ≡ true
    pub fresh : dm.feeder.calls ≡ []

  dial_grpc-inverts :
      (endpoint : Text) (enable_tls : Bool) (conn : deps.dialer.Conn)
      → dial_grpc deps.dialer endpoint enable_tls ≡ ok conn
      → deps.dialer.grpc_dial endpoint (transport_dial_opt enable_tls) ≡ ok conn
  unfolding dial_grpc
  dial_grpc-inverts endpoint enable_tls conn e = must-eq-ok _ e

  stream_dial-inverts :
      (rpc endpoint : Text) (enable_tls : Bool) (dialed : StreamDial.Dialed deps.dialer)
      → StreamDial.dial deps.dialer deps.ws_dialer rpc endpoint enable_tls ≡ ok dialed
      → (deps.dialer.grpc_dial endpoint (transport_dial_opt enable_tls) ≡ ok dialed.oracle)
        × (dialed.websocket ≡ new_websocket (new_dial deps.ws_dialer rpc new_block_subscribe))
        × (dialed.stream ≡ new_stream)
  unfolding StreamDial.dial
  stream_dial-inverts rpc endpoint enable_tls dialed e =
      let (conn, opened, e₁) = >>=-eq-ok (dial_grpc deps.dialer endpoint enable_tls) _ e in
      let same = ok-injective e₁ in
      (
        dial_grpc-inverts endpoint enable_tls dialed.oracle
            (opened ∙ ap (λ (c : StreamDial.Dialed deps.dialer). ok c.oracle) same),
        sym (ap (λ (c : StreamDial.Dialed deps.dialer). c.websocket) same),
        sym (ap (λ (c : StreamDial.Dialed deps.dialer). c.stream) same),
      )

  poster_dial-inverts :
      (endpoint chain_id : Text) (enable_tls : Bool) (kb : PrivKeyKeyring) (validator feeder : Text)
      (client : Client) (client_deps : PosterDial.ClientDeps deps.dialer)
      → PosterDial.dial deps.dialer endpoint chain_id enable_tls kb validator feeder
        ≡ ok (client, client_deps)
      → (client.validator ≡ validator)
        × (client.feeder ≡ feeder)
        × (deps.dialer.grpc_dial endpoint (transport_dial_opt enable_tls)
            ≡ ok client_deps.oracle_client)
        × (client_deps.key_base ≡ kb)
        × (client_deps.chain_id ≡ chain_id)
        × (client.previous_prevote ≡ none)
  unfolding PosterDial.dial
  poster_dial-inverts endpoint chain_id enable_tls kb validator feeder client client_deps e =
      let (conn, opened, e₁) = >>=-eq-ok (dial_grpc deps.dialer endpoint enable_tls) _ e in
      let same = ok-injective e₁ in
      (
        sym (ap (λ p. p.0.validator) same),
        sym (ap (λ p. p.0.feeder) same),
        dial_grpc-inverts endpoint enable_tls client_deps.oracle_client
            (opened ∙ ap (λ p. ok p.1.oracle_client) same),
        sym (ap (λ p. p.1.key_base) same),
        sym (ap (λ p. p.1.chain_id) same),
        sym (ap (λ p. p.0.previous_prevote) same),
      )

  run-inverts :
      (init_params : Option Params) (f : Feeder F)
      → run init_params new_feeder ≡ ok f
      → (init_params ≡ some f.params) × (f.running ≡ true) × (f.calls ≡ [])
  unfolding run new_feeder
  run-inverts none f e = absurd (ground arith)
  run-inverts (some params) f e = let same = ok-injective e in ground arith

  aggregate-serves :
      (exchanges : Dict (Dict Symbol)) (configs : Dict Text) (ps : List (Started F))
      → new_aggregate deps.source_deps exchanges configs ≡ ok ps
      → map (serves deps.source_deps) ps ≡ map (entry deps.source_deps) exchanges
  aggregate-serves exchanges configs ps e =
      elim (new_aggregate-starts deps.source_deps exchanges configs) [
        | inl (known, qs, e', same) ↦
            subst (λ rs. map (serves deps.source_deps) rs ≡ map (entry deps.source_deps) exchanges)
              (ok-injective (sym e' ∙ e)) same
        | inr (unknown, e') ↦ absurd (ground arith)
      ]

  -- The last steps of the command, from the configuration on.
  connected-IsRunning :
      (debug : Bool) (getenv : Text → Text) (defaults maps : SymbolMaps)
      (globals after : Globals deps.sdk) (init_params : Option Params) (c : Config)
      (dm : Daemon F deps)
      → ((seed path priv : Text) → deps.key_deps.derive seed path ≡ ok priv → IsBytes priv)
      → IsPrefixed deps.sdk globals after
      → IsComplete deps.config_deps getenv defaults c maps
      → connect_parts deps debug init_params after c ≡ ok dm
      → IsRunning debug getenv defaults globals init_params dm
  unfolding connect_parts whoami validator_address transport_dial_opt setup_logger
  connected-IsRunning debug getenv defaults maps globals after init_params c dm bytes prefixed
        complete h =
      through
        (StreamDial.dial deps.dialer deps.ws_dialer c.websocket_endpoint c.grpc_endpoint
          c.enable_tls)
        _ h
        λ stream dialed h₁.
          through
            (new_aggregate deps.source_deps c.exchanges_to_pair_to_symbol_map
              c.data_source_config_map)
            _ h₁
            λ providers started h₂.
              through (get_auth deps.key_deps c.feeder_mnemonic) _ h₂
                λ (kb, val_addr, feeder_addr) auth h₃.
                  through
                    (PosterDial.dial deps.dialer c.grpc_endpoint c.chain_id c.enable_tls kb
                      (validator_address c.validator_addr val_addr) feeder_addr)
                    _ h₃
                    λ (client, client_deps) dialed' h₄.
                      through (run init_params new_feeder) _ h₄ λ f ran h₅.
                        let (priv, derived, from_key, own, holds) =
                          get_auth-Holds deps.key_deps c.feeder_mnemonic kb val_addr feeder_addr
                            bytes auth in
                        let (opened, reading, streaming) =
                          stream_dial-inverts c.websocket_endpoint c.grpc_endpoint c.enable_tls
                            stream dialed in
                        let (votes, feeds, opened', keeps, chain, no_prevote) =
                          poster_dial-inverts c.grpc_endpoint c.chain_id c.enable_tls kb _
                            feeder_addr client client_deps dialed' in
                        let (told, runs, fresh) = run-inverts init_params f ran in
                        subst (IsRunning debug getenv defaults globals init_params)
                          (ok-injective h₅)
                          (record {
                            level = refl;
                            prefixed = prefixed;
                            maps = maps;
                            complete = complete;
                            priv = priv;
                            derived = derived;
                            signs = subst (Holds deps.key_deps kb priv) (sym feeds) holds;
                            votes_for_own = λ unset.
                                votes
                                ∙ ap (λ v. validator_address v val_addr) unset
                                ∙ own
                                ∙ sym feeds;
                            votes_for =
                                λ validator set. votes ∙ ap (λ v. validator_address v val_addr) set;
                            no_prevote = no_prevote;
                            serving =
                                aggregate-serves c.exchanges_to_pair_to_symbol_map
                                  c.data_source_config_map providers started;
                            alive =
                                new_aggregate-alive deps.source_deps
                                  c.exchanges_to_pair_to_symbol_map c.data_source_config_map
                                  providers started;
                            connected = opened;
                            connected_client = ok-injective (sym opened' ∙ opened);
                            reading = reading;
                            streaming = streaming;
                            chain = chain;
                            keeps = keeps;
                            told = told;
                            runs = runs;
                            fresh = fresh;
                          })

  pub root_run-IsRunning :
      (debug : Bool) (getenv : Text → Text) (defaults : SymbolMaps) (globals : Globals deps.sdk)
      (init_params : Option Params) (dm : Daemon F deps)
      → ((seed path priv : Text) → deps.key_deps.derive seed path ≡ ok priv → IsBytes priv)
      → root_run deps debug getenv defaults globals init_params ≡ ok dm
      → IsRunning debug getenv defaults globals init_params dm
  unfolding root_run
  root_run-IsRunning debug getenv defaults globals init_params dm bytes h =
      through (init_sdk_config deps.sdk globals) _ h λ after prefixed h₁.
        through (must_get deps.config_deps getenv defaults).0 _ h₁ λ c loaded h₂.
          let maps = (must_get deps.config_deps getenv defaults).1 in
          connected-IsRunning debug getenv defaults maps globals after init_params c dm bytes
            (init_sdk_config-IsPrefixed deps.sdk globals after prefixed)
            (must_get-IsComplete deps.config_deps getenv defaults c maps (λ i. (loaded i, maps))) h₂
