-- ===== src/Signing.antt =====
-- feeder/priceposter/signing.go: a transaction is built, signed and broadcast. The keyring, the
-- transaction config and the clients are code of other packages: they are parameters here.
pub mod Outcomes
use pricefeeder.Base.{
  ℕ, Bool, List, Text, text, ◌++◌, ◌==◌, if◌then◌else◌, Result, ok, err, panic, ◌>>=◌, ◌>>◌, must,
}

-- The messages of the chain's oracle module that are sent.
pub data Msg : Type 0 where
  -- `MsgAggregateExchangeRatePrevote`: hash, feeder, validator
  prevote_msg : Text → Text → Text → Msg
  -- `MsgAggregateExchangeRateVote`: salt, exchange rates, feeder, validator
  vote_msg : Text → Text → Text → Text → Msg

-- What `tx.Sign` is given: the built transaction and the fields of the factory.
pub record Tx : Type 0 where
  pub msgs : List Msg
  pub fee_denom : Text
  pub fee_amount : ℕ
  pub gas_limit : ℕ
  pub chain_id : Text
  pub account_number : ℕ
  pub sequence : ℕ
  pub key_name : Text

pub record TxResponse : Type 0 where
  pub code : ℕ
  pub tx_hash : Text
  pub raw_log : Text

-- The calls into other packages that `sendTx` makes.
pub record TxDeps : Type 1 where
  pub RawAccount : Type 0
  pub SignedTx : Type 0
  -- the keyring's `KeyByAddress`, which gives the record's name
  pub key_by_address : Text → Result Text
  pub set_msgs : List Msg → Result (Unit {0})
  -- the query `Account`, and `UnpackAny` with the account's number and sequence
  pub account : Text → Result RawAccount
  pub unpack_any : RawAccount → Result (ℕ × ℕ)
  pub sign : Tx → Result SignedTx
  pub encode : SignedTx → Result Text
  pub broadcast_tx : Text → Result TxResponse
  pub chain_id : Text

module _ (deps : TxDeps) where
  open deps use {
    key_by_address, set_msgs, account, unpack_any, sign, encode, broadcast_tx, chain_id,
  }

  unfoldable pub get_account : Text → Result (ℕ × ℕ)
  get_account feeder = account feeder >>= λ raw. must (unpack_any raw)

  -- An error of the chain's answer is an error of the call.
  check_code : TxResponse → Result TxResponse
  check_code resp = if resp.code == 0 then ok resp else err (text "tx failed: " ++ resp.raw_log)

  abbrev pub built_tx : List Msg → Text → ℕ × ℕ → Tx
  built_tx msgs key_name numbers = record {
    msgs = msgs;
    fee_denom = text "avsg";
    fee_amount = 3_500_000;
    gas_limit = 500_000;
    chain_id = chain_id;
    account_number = numbers.0;
    sequence = numbers.1;
    key_name = key_name;
  }

  unfoldable pub send_tx : Text → List Msg → Result TxResponse
  unfolding get_account check_code
  send_tx feeder msgs = do
    key_name ← must (key_by_address feeder)
    must (set_msgs msgs)
    numbers ← get_account feeder
    signed ← must (sign (built_tx msgs key_name numbers))
    bytes ← must (encode signed)
    resp ← broadcast_tx bytes
    check_code resp
