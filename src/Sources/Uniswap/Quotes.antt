-- ===== src/Sources/Uniswap/Quotes.antt =====
-- What a quote of uniswap.go is made from.
use pricefeeder.Base.{
  ℕ, ◌^◌, through, wrap_error, wrap_error-eq-ok, Bool, Bool-cases, true, false, ◌≡◌, sym, inl, inr,
  Text, text, if◌then◌else◌, ok, ok-injective, arith,
}
use pricefeeder.Float.{Float}
use pricefeeder.Sources.Uniswap.{Ethereum, BigFloat, get_price, pool_price, deviates}

module _ {F : Type 0} ⦃d : Float F⦄ (eth : Ethereum) (big : BigFloat F) (percent_f : F → Text) where
  -- The reserves of a pool: of the two tokens, as its contract answers, neither of them 0.
  pub record Reserves (client : eth.Client) (abi : eth.Abi) (address : Text) (first second : ℕ)
      : Type 0 where
    pub call_data : Text
    pub answer : Text
    pub packed : eth.pack abi (text "getReserves") ≡ ok call_data
    pub called : eth.call_contract client (eth.hex_to_address address) call_data ≡ ok answer
    pub unpacked : eth.unpack abi (text "getReserves") answer ≡ ok (first, second)
    pub first_nonzero : big.same (big.set_int first) big.big_zero ≡ false
    pub second_nonzero : big.same (big.set_int second) big.big_zero ≡ false

  -- The quotient of two amounts, divided by 10^m and multiplied by 10^n.
  abbrev pub scaled : ℕ → ℕ → ℕ → ℕ → F
  scaled a b m n = big.float64 (
      big.times (big.quo (big.quo (big.set_int a) (big.set_int b)) (big.set_int (10 ^ m)))
        (big.set_int (10 ^ n)))

  if_ok : (b : Bool) (x y v : F) → (if b then ok x else ok y) ≡ ok v → v ≡ (if b then x else y)
  if_ok true x y v h = sym (ok-injective h)
  if_ok false x y v h = sym (ok-injective h)

  -- A quote, by the reserves and the decimals.
  pool_price-inverts :
      (r₀ r₁ m n : ℕ) (reverse : Bool) (v : F)
      → pool_price eth big percent_f r₀ r₁ n m reverse ≡ ok v
      → (big.same (big.set_int r₀) big.big_zero ≡ false)
        × (big.same (big.set_int r₁) big.big_zero ≡ false)
        × (v ≡ (if reverse then scaled r₀ r₁ m n else scaled r₁ r₀ m n))
  unfolding pool_price
  pool_price-inverts r₀ r₁ m n reverse v h =
      elim (Bool-cases (big.same (big.set_int r₀) big.big_zero)) [
        | inl zero_first ↦ absurd (ground arith)
        | inr first ↦ elim (Bool-cases (big.same (big.set_int r₁) big.big_zero)) [
          | inl zero_second ↦ absurd (ground arith)
          | inr second ↦ (first, second, if_ok reverse _ _ v (rw (first, second) at h))
        ]
      ]

  pub get_price-inverts :
      (client : eth.Client) (abi : eth.Abi) (address : Text) (n m : ℕ) (reverse : Bool) (v : F)
      → get_price eth big percent_f client abi address n m reverse ≡ ok v
      → (pool : ℕ × ℕ) × Reserves client abi address pool.0 pool.1
        × (v ≡ (if reverse then scaled pool.0 pool.1 m n else scaled pool.1 pool.0 m n))
  unfolding get_price
  get_price-inverts client abi address n m reverse v h =
      through (wrap_error (text "failed to pack call data: ") (eth.pack abi (text "getReserves"))) _
        h
        λ call_data packed h₁.
          through
            (wrap_error (text "failed to call contract: ")
              (eth.call_contract client (eth.hex_to_address address) call_data))
            _ h₁
            λ answer called h₂.
              through
                (wrap_error (text "failed to unpack result: ")
                  (eth.unpack abi (text "getReserves") answer))
                _ h₂
                λ pool unpacked h₃.
                  let (first, second, value) = pool_price-inverts pool.0 pool.1 m n reverse v h₃ in
                  (
                    pool,
                    record {
                      call_data = call_data;
                      answer = answer;
                      packed = wrap_error-eq-ok (text "failed to pack call data: ") _ packed;
                      called = wrap_error-eq-ok (text "failed to call contract: ") _ called;
                      unpacked = wrap_error-eq-ok (text "failed to unpack result: ") _ unpacked;
                      first_nonzero = first;
                      second_nonzero = second;
                    },
                    value,
                  )

  pub deviates-inverts :
      (usdt usdc : F)
      → deviates eth big percent_f usdt usdc ≡ false
      → (d.lt (d.div (d.of_nat 5) (d.of_nat 4)) (d.div usdt usdc) ≡ false)
        × (d.lt (d.div usdt usdc) (d.div (d.of_nat 4) (d.of_nat 5)) ≡ false)
  deviates-inverts usdt usdc h = ground arith
