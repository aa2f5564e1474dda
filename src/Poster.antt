-- ===== src/Poster.antt =====
-- feeder/priceposter/oracle.go and client.go: prevotes commit to prices, votes reveal them one period
-- later. Hashing, the exchange rate tuples, the decimal type and the random number generator are code
-- of other packages, and the oracle's query is a call to the chain: they are parameters here.
pub mod Reveal
pub mod Round
pub mod History
pub mod Next
pub mod Malformed
pub mod Retry
pub mod Chain
pub mod Dial
use pricefeeder.Base.{
  ℕ, Bool, true, false, Option, none, some, List, [], ◌∷◌, Text, text_eq, not, if◌then◌else◌,
  Result, ok, err, panic, ◌>>=◌, must, decimal,
}
use pricefeeder.Float.{Float}
use pricefeeder.Types.{Pair, Price, VotingPeriod}
use pricefeeder.PriceText.{float64_to_dec}
use pricefeeder.Signing.{Msg, prevote_msg, vote_msg, TxDeps, TxResponse, send_tx}

-- What the oracle's package computes.
pub record OracleLib : Type 1 where
  pub Decimal : Type 0
  -- `LegacyNewDecFromStr`
  pub new_dec : Text → Result Decimal
  -- `ExchangeRateTuples.ToString`
  pub tuples_to_string : List (Pair × Decimal) → Result Text
  -- the text of `GetAggregateVoteHash` of a salt, the rates and a validator
  pub vote_hash : Text → Text → Text → Text

-- The calls of one round: the transaction's, the query `AggregatePrevote`, which gives the hash that
-- the chain holds for a validator, and `rand.Int`, a random number below its argument.
pub record Deps : Type 1 where
  pub tx_deps : TxDeps
  pub aggregate_prevote : Text → Result Text
  pub rand_int : ℕ → Result ℕ

pub record Prevote : Type 0 where
  pub msg : Msg
  pub salt : Text
  pub vote : Text

abbrev pub max_salt_number : ℕ
max_salt_number = 9999

pub record Client : Type 0 where
  pub validator : Text
  pub feeder : Text
  pub previous_prevote : Option Prevote

module _ (lib : OracleLib) where
  open lib use {Decimal, new_dec, tuples_to_string, vote_hash}

  module _ {F : Type 0} ⦃d : Float F⦄ where
    -- The loop that fills the tuple.
    unfoldable pub exchange_rates : List (Price F) → Result (List (Pair × Decimal))
    exchange_rates [] = ok []
    exchange_rates (price ∷ prices) = float64_to_dec new_dec price.price >>= λ rate.
        exchange_rates prices >>= λ rates. ok ((price.pair, rate) ∷ rates)

    unfoldable pub new_prevote : (ℕ → Result ℕ) → List (Price F) → Text → Text → Result Prevote
    unfolding exchange_rates
    new_prevote rand_int prices validator feeder = do
      tuple ← exchange_rates prices
      votes_str ← must (tuples_to_string tuple)
      n_big ← must (rand_int max_salt_number)
      let salt = decimal n_big
      ok (record {
        msg = prevote_msg (vote_hash salt votes_str validator) feeder validator;
        salt = salt;
        vote = votes_str;
      })

  -- No vote is prepared if the query fails, or if the chain holds another hash.
  unfoldable pub prepare_vote : Deps → Text → Text → Prevote → Result (Option Msg)
  prepare_vote deps validator feeder prevote = elim (deps.aggregate_prevote validator) [
    | ok chain_hash ↦
        if not (text_eq (vote_hash prevote.salt prevote.vote validator) chain_hash)
        then ok none
        else ok (some (vote_msg prevote.salt prevote.vote feeder validator))
    | err e ↦ ok none
    | panic ↦ panic
  ]

  prepare_old : Deps → Text → Text → Option Prevote → Result (Option Msg)
  unfolding prepare_vote
  prepare_old deps validator feeder none = ok none
  prepare_old deps validator feeder (some old) = prepare_vote deps validator feeder old

  -- First the vote, if there is one, and then the prevote.
  messages : Prevote → Option Msg → List Msg
  messages new none = new.msg ∷ []
  messages new (some vote) = vote ∷ new.msg ∷ []

  -- The messages of a round.
  unfoldable pub round_msgs : Deps → Prevote → Option Prevote → Text → Text → Result (List Msg)
  unfolding prepare_old messages
  round_msgs deps new old validator feeder =
      prepare_old deps validator feeder old >>= λ vote. ok (messages new vote)

  unfoldable pub vote : Deps → Prevote → Option Prevote → Text → Text → Result TxResponse
  vote deps new old validator feeder =
      round_msgs deps new old validator feeder >>= λ msgs. send_tx deps.tx_deps feeder msgs

  -- The client after the round, and the label of the counter `prices_posted_total`.
  finish_round : Client → Prevote → Result TxResponse → Result (Client × Bool)
  finish_round c new (ok resp) = ok (record c { previous_prevote = some new }, true)
  finish_round c new (err e) = ok (c, false)
  finish_round c new panic = panic

  unfoldable pub send_prices :
      {F : Type 0} ⦃d : Float F⦄
      → Deps
      → Client
      → VotingPeriod
      → List (Price F)
      → Result (Client × Bool)
  unfolding finish_round
  send_prices deps c vp prices = new_prevote deps.rand_int prices c.validator c.feeder >>= λ new.
      finish_round c new (vote deps new c.previous_prevote c.validator c.feeder)
