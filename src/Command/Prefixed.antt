-- ===== src/Command/Prefixed.antt =====
-- What InitSDKConfig of utils/config.go leaves.
use mathlib.Core.Path.{subst}
use pricefeeder.Base.{◌≡◌, refl, ◌++◌, ap, Option, none, some, text, ok, ok-injective, through}
use pricefeeder.Prefixes.{Sdk, Globals, init_sdk_config, or_panic, account, validator, node}

-- The prefixes of the three kinds of addresses are made from the chain's, and the configuration is sealed.
pub record IsPrefixed (sdk : Sdk) (before after : Globals sdk) : Type 0 where
  pub with_account : sdk.SdkConfig
  pub with_validator : sdk.SdkConfig
  pub with_node : sdk.SdkConfig
  pub account_set :
      sdk.set_bech32_prefix_for_account sdk.account_address_prefix
        (sdk.account_address_prefix ++ text "pub")
        before.config
      ≡ some with_account
  pub validator_set :
      sdk.set_bech32_prefix_for_validator
        (sdk.account_address_prefix ++ text "valoper")
        (sdk.account_address_prefix ++ text "valoperpub")
        with_account
      ≡ some with_validator
  pub node_set :
      sdk.set_bech32_prefix_for_consensus_node
        (sdk.account_address_prefix ++ text "valcons")
        (sdk.account_address_prefix ++ text "valconspub")
        with_validator
      ≡ some with_node
  pub sealed : after.config ≡ sdk.seal with_node
  pub reduction : after.default_power_reduction ≡ sdk.power_reduction

or_panic-eq-ok {ℓ} : {A : Type ℓ} (o : Option A) {a : A} → or_panic o ≡ ok a → o ≡ some a
or_panic-eq-ok none h = cc
or_panic-eq-ok (some a) h = ap some (ok-injective h)

pub init_sdk_config-IsPrefixed :
    (sdk : Sdk) (before after : Globals sdk)
    → init_sdk_config sdk before ≡ ok after
    → IsPrefixed sdk before after
unfolding init_sdk_config
init_sdk_config-IsPrefixed sdk before after h =
    through (or_panic (account sdk before)) _ h λ c₁ account_set h₁.
      through (or_panic (validator sdk c₁)) _ h₁ λ c₂ validator_set h₂.
        through (or_panic (node sdk c₂)) _ h₂ λ c₃ node_set h₃.
          subst (IsPrefixed sdk before) (ok-injective h₃) (record {
            with_account = c₁;
            with_validator = c₂;
            with_node = c₃;
            account_set = or_panic-eq-ok _ account_set;
            validator_set = or_panic-eq-ok _ validator_set;
            node_set = or_panic-eq-ok _ node_set;
            sealed = refl;
            reduction = refl;
          })
