-- ===== src/Command/Ends.antt =====
-- How the start of the daemon can end.
use pricefeeder.Base.{
  ◌≡◌, ◌⊎◌, inl, inr, Bool, Option, none, some, Text, text, Dict, ok, panic, must-NeverErrs,
  NeverErrs, NeverErrs-cases, returned, panicked,
}
use pricefeeder.Float.{Float}
use pricefeeder.Types.{Symbol, Params}
use pricefeeder.Grpc.{dial_grpc, transport_dial_opt}
use pricefeeder.Prefixes.{Sdk, Globals, init_sdk_config, or_panic, account, validator, node}
use pricefeeder.Config.{SymbolMaps, Config, must_get, get}
use pricefeeder.Stream.Dial as StreamDial
use pricefeeder.Start.{new_aggregate}
use pricefeeder.Start.Known.{new_aggregate-starts}
use pricefeeder.Keyring.{
  KeyDeps, PrivKeyKeyring, get_auth, new_priv_key_keyring, hex_encode, hex_decode,
}
use pricefeeder.Keyring.Auth.{IsBytes}
use pricefeeder.Poster.Dial as PosterDial
use pricefeeder.Feeder.{run, new_feeder}
use pricefeeder.Command.{RootDeps, Daemon, validator_address, connect_parts, root_run}
use pricefeeder.Command.Running.{IsRunning, root_run-IsRunning}

or_panic-NeverErrs {ℓ} : {A : Type ℓ} (o : Option A) → NeverErrs (or_panic o)
or_panic-NeverErrs none = panicked
or_panic-NeverErrs (some a) = returned a

init-NeverErrs : (sdk : Sdk) (globals : Globals sdk) → NeverErrs (init_sdk_config sdk globals)
unfolding init_sdk_config
init-NeverErrs sdk globals = elim (NeverErrs-cases (or_panic-NeverErrs (account sdk globals))) [
  | inr e ↦ rw e panicked
  | inl (c₁, e₁) ↦ rw e₁ (elim (NeverErrs-cases (or_panic-NeverErrs (validator sdk c₁))) [
    | inr e ↦ rw e panicked
    | inl (c₂, e₂) ↦ rw e₂ (elim (NeverErrs-cases (or_panic-NeverErrs (node sdk c₂))) [
      | inr e ↦ rw e panicked
      | inl (c₃, e₃) ↦ rw e₃ (returned _)
    ])
  ])
]

get_auth-NeverErrs : (deps : KeyDeps) (mnemonic : Text) → NeverErrs (get_auth deps mnemonic)
unfolding get_auth new_priv_key_keyring
get_auth-NeverErrs deps mnemonic =
    elim (NeverErrs-cases
      (must-NeverErrs (deps.derive (deps.new_seed mnemonic) (text "m/44'/118'/0'/0/0")))) [
        | inr e ↦ rw e panicked
        | inl (priv, e) ↦
            rw e (elim (NeverErrs-cases (must-NeverErrs (hex_decode (hex_encode priv)))) [
              | inr e' ↦ rw e' panicked
              | inl (b, e') ↦ rw e' (returned _)
            ])
      ]

run-NeverErrs :
    {F : Type 0} (init_params : Option Params) → NeverErrs (run {F = F} init_params new_feeder)
unfolding run
run-NeverErrs none = panicked
run-NeverErrs (some params) = returned _

module _ {F : Type 0} ⦃d : Float F⦄ (deps : RootDeps F) where
  aggregate-NeverErrs :
      (exchanges : Dict (Dict Symbol)) (configs : Dict Text)
      → NeverErrs (new_aggregate deps.source_deps exchanges configs)
  aggregate-NeverErrs exchanges configs =
      elim (new_aggregate-starts deps.source_deps exchanges configs) [
        | inl (known, ps, e, same) ↦ rw e (returned ps)
        | inr (unknown, e) ↦ rw e panicked
      ]

  stream_dial-NeverErrs :
      (rpc endpoint : Text) (enable_tls : Bool)
      → NeverErrs (StreamDial.dial deps.dialer deps.ws_dialer rpc endpoint enable_tls)
  unfolding StreamDial.dial dial_grpc
  stream_dial-NeverErrs rpc endpoint enable_tls =
      elim (NeverErrs-cases
        (must-NeverErrs (deps.dialer.grpc_dial endpoint (transport_dial_opt enable_tls)))) [
          | inr e ↦ rw e panicked
          | inl (conn, e) ↦ rw e (returned _)
        ]

  poster_dial-NeverErrs :
      (endpoint chain_id : Text) (enable_tls : Bool) (kb : PrivKeyKeyring) (validator feeder : Text)
      → NeverErrs (PosterDial.dial deps.dialer endpoint chain_id enable_tls kb validator feeder)
  unfolding PosterDial.dial dial_grpc
  poster_dial-NeverErrs endpoint chain_id enable_tls kb validator feeder =
      elim (NeverErrs-cases
        (must-NeverErrs (deps.dialer.grpc_dial endpoint (transport_dial_opt enable_tls)))) [
          | inr e ↦ rw e panicked
          | inl (conn, e) ↦ rw e (returned _)
        ]

  parts-NeverErrs :
      (debug : Bool) (init_params : Option Params) (after : Globals deps.sdk) (c : Config)
      → NeverErrs (connect_parts deps debug init_params after c)
  unfolding connect_parts
  parts-NeverErrs debug init_params after c =
      elim (NeverErrs-cases
        (stream_dial-NeverErrs c.websocket_endpoint c.grpc_endpoint c.enable_tls)) [
          | inr e ↦ rw e panicked
          | inl (stream, e₁) ↦
              rw e₁
                (elim (NeverErrs-cases (
                  aggregate-NeverErrs c.exchanges_to_pair_to_symbol_map c.data_source_config_map)) [
                    | inr e ↦ rw e panicked
                    | inl (providers, e₂) ↦
                        rw e₂
                          (elim (NeverErrs-cases
                            (get_auth-NeverErrs deps.key_deps c.feeder_mnemonic)) [
                              | inr e ↦ rw e panicked
                              | inl ((kb, own, feeder), e₃) ↦
                                  rw e₃
                                    (elim (NeverErrs-cases (
                                      poster_dial-NeverErrs c.grpc_endpoint c.chain_id c.enable_tls
                                        kb (validator_address c.validator_addr own) feeder)) [
                                          | inr e ↦ rw e panicked
                                          | inl (client, e₄) ↦
                                              rw e₄
                                                (elim (NeverErrs-cases
                                                  (run-NeverErrs {F = F} init_params)) [
                                                    | inr e ↦ rw e panicked
                                                    | inl (f, e₅) ↦ rw e₅ (returned _)
                                                  ])
                                        ])
                            ])
                  ])
        ]

  root_run-NeverErrs :
      (debug : Bool) (getenv : Text → Text) (defaults : SymbolMaps) (globals : Globals deps.sdk)
      (init_params : Option Params)
      → NeverErrs (root_run deps debug getenv defaults globals init_params)
  unfolding root_run must_get
  root_run-NeverErrs debug getenv defaults globals init_params =
      elim (NeverErrs-cases (init-NeverErrs deps.sdk globals)) [
        | inr e ↦ rw e panicked
        | inl (after, e) ↦
            rw e (elim (NeverErrs-cases (must-NeverErrs (get deps.config_deps getenv defaults).0)) [
              | inr e' ↦ rw e' panicked
              | inl (c, e') ↦ rw e' (parts-NeverErrs debug init_params after c)
            ])
      ]

  -- If derived keys are sequences of bytes, the start ends in one of two ways. Either every part is up: the
  -- SDK's prefixes are made from the chain's and sealed; the configuration is complete, with the sources' settings
  -- decoded; both gRPC connections go to its endpoint, by TLS exactly if it says so, and the websocket to the
  -- other; there is one provider for each of its exchanges, all running; the keyring holds the key of the mnemonic;
  -- the client votes on the configured chain for the configured validator, or for the key's own address if there
  -- is none or it does not parse; and the feeder runs with the first parameters, with nothing posted. Or the
  -- process panics.
  pub root_run-starts :
      (debug : Bool) (getenv : Text → Text) (defaults : SymbolMaps) (globals : Globals deps.sdk)
      (init_params : Option Params)
      → ((seed path priv : Text) → deps.key_deps.derive seed path ≡ ok priv → IsBytes priv)
      → ((dm : Daemon F deps) × (root_run deps debug getenv defaults globals init_params ≡ ok dm)
          × IsRunning deps debug getenv defaults globals init_params dm)
        ⊎ (root_run deps debug getenv defaults globals init_params ≡ panic)
  root_run-starts debug getenv defaults globals init_params bytes =
      elim (NeverErrs-cases (root_run-NeverErrs debug getenv defaults globals init_params)) [
        | inl (dm, e) ↦
            inl
              (dm, e, root_run-IsRunning deps debug getenv defaults globals init_params dm bytes e)
        | inr e ↦ inr e
      ]
