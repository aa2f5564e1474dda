-- ===== src/Poster/Dial.antt =====
-- `Dial`, `Whoami` and `Close` of feeder/priceposter/client.go.
use pricefeeder.Base.{Bool, none, List, [], ◌∷◌, Text, Result, ok, ◌>>=◌}
use pricefeeder.Grpc.{Dialer, dial_grpc}
use pricefeeder.Keyring.{PrivKeyKeyring}
use pricefeeder.Poster.{Client}

-- What is registered as implementations: of accounts, public keys and private keys.
pub data Registered : Type 0 where
  eth_account eth_pub_key eth_priv_key : Registered

-- `deps`: the connections of the three clients, the keyring and the chain. The transaction config
-- and the registry come from the app's encoding.
pub record ClientDeps (deps : Dialer) : Type 0 where
  pub oracle_client : deps.Conn
  pub auth_client : deps.Conn
  pub tx_client : deps.Conn
  pub key_base : PrivKeyKeyring
  pub registered : List Registered
  pub chain_id : Text

unfoldable pub dial :
    (deps : Dialer) (grpc_endpoint chain_id : Text)
    → Bool
    → PrivKeyKeyring
    → (validator feeder : Text) → Result (Client × ClientDeps deps)
dial deps grpc_endpoint chain_id enable_tls key_base validator feeder =
    dial_grpc deps grpc_endpoint enable_tls >>= λ conn. ok (
      record { validator = validator; feeder = feeder; previous_prevote = none },
      record {
        oracle_client = conn;
        auth_client = conn;
        tx_client = conn;
        key_base = key_base;
        registered = eth_account ∷ eth_pub_key ∷ eth_priv_key ∷ [];
        chain_id = chain_id;
      },
    )

unfoldable pub whoami : Client → Text
whoami c = c.validator

-- `Close` does nothing.
unfoldable pub close : Client → Client
close c = c
