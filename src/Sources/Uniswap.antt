-- ===== src/Sources/Uniswap.antt =====
-- uniswap.go: the price of ETH from two pools and of VSG from a third. go-ethereum is a parameter, as are
-- `math/big`'s floats and the `%f` of `fmt`.
pub mod Quotes
pub mod Pools
use pricefeeder.Base.{
  wrap_error, ℕ, ◌^◌, Bool, true, false, ◌||◌, List, [], ◌∷◌, ◌++◌, Text, text, Dict, insert,
  if◌then◌else◌, Result, ok, err, panic, ◌>>=◌,
}
use pricefeeder.Float.{Float}
use pricefeeder.Sources.{Fetched, respond, succeeded}

-- What is called of go-ethereum. `unpack` gives the two reserves, which are of type uint112.
pub record Ethereum : Type 1 where
  pub Client : Type 0
  pub Abi : Type 0
  pub Address : Type 0
  pub dial : Text → Result Client
  pub abi_json : Text → Result Abi
  pub hex_to_address : Text → Address
  pub pack : Abi → Text → Result Text
  pub call_contract : Client → Address → Text → Result Text
  pub unpack : Abi → Text → Text → Result (ℕ × ℕ)

-- `big.Float`: `SetInt`, `NewFloat(0)`, `Cmp(...) == 0`, `Quo`, `Mul` and the first result of `Float64`.
pub record BigFloat (F : Type 0) : Type 1 where
  pub Big : Type 0
  pub set_int : ℕ → Big
  pub big_zero : Big
  pub same : Big → Big → Bool
  pub quo : Big → Big → Big
  pub times : Big → Big → Big
  pub float64 : Big → F

abbrev pub public_node_url : Text
public_node_url = text "https://ethereum-rpc.publicnode.com"

abbrev pub uniswap_pair_abi_json : Text
uniswap_pair_abi_json =
    text
      "[{\"constant\":true,\"inputs\":[],\"name\":\"getReserves\",\"outputs\":[{\"internalType\":\"uint112\",\"name\":\"_reserve0\",\"type\":\"uint112\"},{\"internalType\":\"uint112\",\"name\":\"_reserve1\",\"type\":\"uint112\"},{\"internalType\":\"uint32\",\"name\":\"_blockTimestampLast\",\"type\":\"uint32\"}],\"payable\":false,\"stateMutability\":\"view\",\"type\":\"function\"}]"

abbrev pub eth_usdt_pair_address : Text
eth_usdt_pair_address = text "0x0d4a11d5EEaaC28EC3F61d100daF4d40471f1852"

abbrev pub eth_usdc_pair_address : Text
eth_usdc_pair_address = text "0xB4e16d0168e52d35CaCD2c6185b44281Ec28C9Dc"

abbrev pub vsg_eth_pair_address : Text
vsg_eth_pair_address = text "0x1E9348B71EcBaaa14EFF7B4B6186B78d1A9B9B70"

-- An error after the first two calls is returned and not counted.
abbrev pub uncounted : {F : Type 0} → Result (Dict F) → Fetched F
uncounted (ok prices) = succeeded prices
uncounted (err e) = record { counts = []; prices = err e }
uncounted panic = record { counts = []; prices = panic }

module _ {F : Type 0} ⦃d : Float F⦄ (eth : Ethereum) (big : BigFloat F) (percent_f : F → Text) where
  pool_price : ℕ → ℕ → ℕ → ℕ → Bool → Result F
  pool_price reserve_0 reserve_1 decimals_0 decimals_1 reverse =
      let r₀ = big.set_int reserve_0 in
      let r₁ = big.set_int reserve_1 in
      let d₀ = big.set_int (10 ^ decimals_0) in
      let d₁ = big.set_int (10 ^ decimals_1) in
      if big.same r₀ big.big_zero || big.same r₁ big.big_zero
      then err (text "one of the reserves is zero")
      else (if reverse
          then ok (big.float64 (big.times (big.quo (big.quo r₀ r₁) d₁) d₀))
          else ok (big.float64 (big.times (big.quo (big.quo r₁ r₀) d₁) d₀)))

  unfoldable pub get_price : eth.Client → eth.Abi → Text → ℕ → ℕ → Bool → Result F
  unfolding pool_price
  get_price client abi pair_address decimals_0 decimals_1 reverse =
      let addr = eth.hex_to_address pair_address in
      wrap_error (text "failed to pack call data: ") (eth.pack abi (text "getReserves"))
      >>= λ call_data.
          wrap_error (text "failed to call contract: ") (eth.call_contract client addr call_data)
          >>= λ result.
              wrap_error (text "failed to unpack result: ")
                (eth.unpack abi (text "getReserves") result)
              >>= λ reserves. pool_price reserves.0 reserves.1 decimals_0 decimals_1 reverse

  -- The two quotes differ by more than a quarter; 1.25 is 5/4 and 0.8 is 4/5.
  abbrev pub deviates : F → F → Bool
  deviates usdt usdc =
      d.lt (d.div (d.of_nat 5) (d.of_nat 4)) (d.div usdt usdc)
      || d.lt (d.div usdt usdc) (d.div (d.of_nat 4) (d.of_nat 5))

  -- The prices from the three pools.
  unfoldable pub pool_prices : eth.Client → eth.Abi → Result (Dict F)
  pool_prices client abi = get_price client abi eth_usdt_pair_address 18 6 false >>= λ usdt.
      get_price client abi eth_usdc_pair_address 18 6 true >>= λ usdc.
      if deviates usdt usdc
      then err
          (text "price deviation too high: " ++ (percent_f usdt ++ (text "/" ++ percent_f usdc)))
      else (let usd = d.div (d.add usdt usdc) (d.of_nat 2) in
          get_price client abi vsg_eth_pair_address 18 18 false >>= λ vsg.
          ok (insert (text "VSGUSD") (d.mul vsg usd) (insert (text "ETHUSD") usd [])))

  -- The symbols are not read.
  unfoldable pub uniswap_price_update : Fetched F
  uniswap_price_update =
      respond {R = eth.Client × eth.Abi}
        (eth.dial public_node_url >>= λ client.
          eth.abi_json uniswap_pair_abi_json >>= λ abi. ok (client, abi))
        λ connected. uncounted (pool_prices connected.0 connected.1)
