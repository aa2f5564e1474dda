-- ===== src/Tests/Ticking.antt =====
-- The pools of uniswap and the ticks of a source (uniswap.go, tick_source.go in
-- feeder/priceprovider/sources) at concrete answers.
use pricefeeder.Base.{
  true, true, map, ℕ, ◌+◌, ◌*◌, ◌/◌, ◌≡◌, refl, List, [], ◌∷◌, ◌++◌, Text, text, Dict, lookup, ok,
  err, arith, text_eq, if◌then◌else◌, ◌==◌,
}
use pricefeeder.Sample.{Number, pos, number_float}
use pricefeeder.Tick.Fresh.{get_price_fresh}
use pricefeeder.Provider.{get_price, provider_run, price_updates, new_provider}
use pricefeeder.Sources.Uniswap.{
  Ethereum, BigFloat, eth_usdt_pair_address, eth_usdc_pair_address, uniswap_price_update,
}
use pricefeeder.Sources.Uniswap.Pools.{Outcome, uniswap_price_update-Outcome}
use pricefeeder.Tick.{
  TickSource, TickEvent, tick, received, stop_signal, returned, stamp, done_closed, tick_stopped,
}

abbrev btc : Text
btc = text "tBTCUSD"

-- A node with 2 ETH for 6000 dollars in both pools, and as much VSG as ETH in the third.
abbrev node : Ethereum
node = record {
  Client = Unit {0};
  Abi = Unit {0};
  Address = Text;
  dial = λ url. ok tt;
  abi_json = λ json. ok tt;
  hex_to_address = λ address. address;
  pack = λ abi name. ok name;
  call_contract = λ client address call. ok address;
  unpack = λ abi name result.
      if text_eq result eth_usdt_pair_address
      then ok (2, 6_000_000_000)
      else (if text_eq result eth_usdc_pair_address then ok (6_000_000_000, 2) else ok (4, 4));
}

-- Whole numbers in place of `big.Float`.
abbrev whole : BigFloat Number
whole = record {
  Big = ℕ;
  set_int = λ n. n;
  big_zero = 0;
  same = λ a b. a == b;
  quo = λ a b. a / b;
  times = λ a b. a * b;
  float64 = pos;
}

uniswap_price_update-Outcome_example :
    let fetched = uniswap_price_update node whole (λ x. text "?") in
    Outcome node whole (λ x. text "?") fetched.counts fetched.prices
uniswap_price_update-Outcome_example = uniswap_price_update-Outcome node whole λ x. text "?"

abbrev clock : ℕ → ℕ
clock n = 1000 + n

abbrev ticks : List (TickEvent Number)
ticks =
    tick (ok ((btc, pos 30) ∷ [])) clock
    ∷ received
    ∷ tick (err (text "no such host")) clock
    ∷ tick (ok ((btc, pos 31) ∷ [])) clock
    ∷ stop_signal
    ∷ []

abbrev after_ticks : TickSource Number
after_ticks = record {
  mode = returned;
  sent = stamp clock ((btc, pos 30) ∷ []) [] ∷ [];
  dropped = stamp clock ((btc, pos 31) ∷ []) [] ∷ [];
  exits = done_closed ∷ tick_stopped ∷ [];
}

abbrev mapping : Dict Text
mapping = (text "ubtc:uusd", btc) ∷ []

get_price_fresh_example :
    get_price 9_000_000_000
      (provider_run
        (map price_updates ([] ++ (stamp clock ((btc, pos 30) ∷ []) [] ∷ [])))
        (new_provider (text "bitfinex") mapping)).provider
      (text "ubtc:uusd")
    ≡ record {
      pair = text "ubtc:uusd";
      price = pos 30;
      source_name = text "bitfinex";
      valid = true;
    }
unfolding lookup text_eq
get_price_fresh_example =
    get_price_fresh (text "bitfinex") mapping [] clock ((btc, pos 30) ∷ []) (text "ubtc:uusd") btc
      (pos 30) 1000 2_000_000_000 9_000_000_000 tt (refl, tt) refl refl (λ i. omega arith)
      (omega arith) (omega arith)
