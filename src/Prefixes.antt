-- ===== src/Prefixes.antt =====
-- utils/config.go: the address prefixes of the chain. The configuration is a value of the Cosmos
-- SDK, whose setters panic once it is sealed: parameters, `none` for the panic.
use pricefeeder.Base.{ℕ, ◌++◌, Option, none, some, Text, text, Result, ok, panic, ◌>>=◌}

pub record Sdk : Type 1 where
  pub SdkConfig : Type 0
  pub set_bech32_prefix_for_account : Text → Text → SdkConfig → Option SdkConfig
  pub set_bech32_prefix_for_validator : Text → Text → SdkConfig → Option SdkConfig
  pub set_bech32_prefix_for_consensus_node : Text → Text → SdkConfig → Option SdkConfig
  pub seal : SdkConfig → SdkConfig
  -- `coreutils.AccountAddressPrefix` and `vsctypes.PowerReduction`
  pub account_address_prefix : Text
  pub power_reduction : ℕ

-- The variables of the SDK that are written.
pub record Globals (sdk : Sdk) : Type 0 where
  pub default_power_reduction : ℕ
  pub config : sdk.SdkConfig

abbrev pub or_panic {ℓ} : {A : Type ℓ} → Option A → Result A
or_panic none = panic
or_panic (some a) = ok a

module _ (sdk : Sdk) where
  open sdk use {account_address_prefix}

  -- The three calls, with the prefixes that are made from the chain's.
  abbrev pub account : Globals sdk → Option sdk.SdkConfig
  account globals =
      sdk.set_bech32_prefix_for_account account_address_prefix
        (account_address_prefix ++ text "pub") globals.config

  abbrev pub validator : sdk.SdkConfig → Option sdk.SdkConfig
  validator =
      sdk.set_bech32_prefix_for_validator (account_address_prefix ++ text "valoper")
        (account_address_prefix ++ text "valoperpub")

  abbrev pub node : sdk.SdkConfig → Option sdk.SdkConfig
  node =
      sdk.set_bech32_prefix_for_consensus_node (account_address_prefix ++ text "valcons")
        (account_address_prefix ++ text "valconspub")

  unfoldable pub init_sdk_config : Globals sdk → Result (Globals sdk)
  init_sdk_config globals = or_panic (account globals) >>= λ c₁. or_panic (validator c₁) >>= λ c₂.
      or_panic (node c₂) >>= λ c₃.
      ok (record { default_power_reduction = sdk.power_reduction; config = sdk.seal c₃ })
