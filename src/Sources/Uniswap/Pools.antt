-- ===== src/Sources/Uniswap/Pools.antt =====
-- What uniswap.go returns and counts.
use pricefeeder.Base.{
  ℕ, Bool, Bool-cases, true, false, ◌≡◌, refl, sym, ◌⊎◌, inl, inr, ap, ◌∙◌, some, none, List, [],
  ◌∷◌, Text, text, Dict, lookup, insert, text_eq, if◌then◌else◌, Result, ok, err, panic, ◌>>=◌,
  >>=-eq-ok, ok-injective, lookup-insert, arith,
}
use pricefeeder.Float.{Float}
use pricefeeder.Sources.{respond}
use pricefeeder.Sources.Uniswap.{
  Ethereum, BigFloat, uncounted, get_price, deviates, pool_prices, uniswap_price_update,
  public_node_url, uniswap_pair_abi_json, eth_usdt_pair_address, eth_usdc_pair_address,
  vsg_eth_pair_address,
}
use pricefeeder.Sources.Uniswap.Quotes.{Reserves, scaled, get_price-inverts, deviates-inverts}

module _ {F : Type 0} ⦃d : Float F⦄ (eth : Ethereum) (big : BigFloat F) (percent_f : F → Text) where
  pub record Pools (prices : Dict F) : Type 0 where
    pub client : eth.Client
    pub abi : eth.Abi
    pub usdt_pool : ℕ × ℕ
    pub usdc_pool : ℕ × ℕ
    pub vsg_pool : ℕ × ℕ
    pub dialled : eth.dial public_node_url ≡ ok client
    pub parsed : eth.abi_json uniswap_pair_abi_json ≡ ok abi
    -- ETH comes first in the pool of USDT and second in that of USDC.
    pub usdt_reserves :
        Reserves eth big percent_f client abi eth_usdt_pair_address usdt_pool.0 usdt_pool.1
    pub usdc_reserves :
        Reserves eth big percent_f client abi eth_usdc_pair_address usdc_pool.0 usdc_pool.1
    pub vsg_reserves :
        Reserves eth big percent_f client abi vsg_eth_pair_address vsg_pool.0 vsg_pool.1
    pub usdt : F
    pub usdc : F
    pub vsg : F
    pub usdt_quote : usdt ≡ scaled eth big percent_f usdt_pool.1 usdt_pool.0 6 18
    pub usdc_quote : usdc ≡ scaled eth big percent_f usdc_pool.0 usdc_pool.1 6 18
    pub vsg_quote : vsg ≡ scaled eth big percent_f vsg_pool.1 vsg_pool.0 18 18
    -- 1.25 and 0.8
    pub not_above : d.lt (d.div (d.of_nat 5) (d.of_nat 4)) (d.div usdt usdc) ≡ false
    pub not_below : d.lt (d.div usdt usdc) (d.div (d.of_nat 4) (d.of_nat 5)) ≡ false
    pub holds :
        (s : Text)
        → lookup s prices ≡ (
            if text_eq (text "VSGUSD") s
            then some (d.mul vsg (d.div (d.add usdt usdc) (d.of_nat 2)))
            else (if text_eq (text "ETHUSD") s
                then some (d.div (d.add usdt usdc) (d.of_nat 2))
                else none))

  abbrev pub Outcome : List Bool → Result (Dict F) → Type 0
  Outcome counts (ok prices) = (counts ≡ true ∷ []) × Pools prices
  Outcome counts (err e) =
      ((counts ≡ false ∷ [])
        × ((eth.dial public_node_url ≡ err e) ⊎ (eth.abi_json uniswap_pair_abi_json ≡ err e)))
      ⊎ (counts ≡ [])
  Outcome counts panic = counts ≡ []

  two_prices :
      (s : Text) (vsg usd : F)
      → lookup s (insert (text "VSGUSD") vsg (insert (text "ETHUSD") usd [])) ≡ (
          if text_eq (text "VSGUSD") s
          then some vsg
          else (if text_eq (text "ETHUSD") s then some usd else none))
  unfolding lookup
  two_prices s vsg usd =
      lookup-insert (text "VSGUSD") s vsg (insert (text "ETHUSD") usd [])
      ∙ ap (λ rest. if text_eq (text "VSGUSD") s then some vsg else rest)
          (lookup-insert (text "ETHUSD") s usd [])

  pool_prices-Pools :
      (client : eth.Client) (abi : eth.Abi) (prices : Dict F)
      → eth.dial public_node_url ≡ ok client
      → eth.abi_json uniswap_pair_abi_json ≡ ok abi
      → pool_prices eth big percent_f client abi ≡ ok prices
      → Pools prices
  unfolding pool_prices lookup
  pool_prices-Pools client abi prices dialled parsed h =
      let (usdt, usdt_quoted, h₁) =
        >>=-eq-ok (get_price eth big percent_f client abi eth_usdt_pair_address 18 6 false) _ h in
      let (usdc, usdc_quoted, h₂) =
        >>=-eq-ok (get_price eth big percent_f client abi eth_usdc_pair_address 18 6 true) _ h₁ in
      elim (Bool-cases (deviates eth big percent_f usdt usdc)) [
        | inl far ↦ ground (arith, far, h₂)
        | inr close ↦
            let (vsg, vsg_quoted, h₃) =
              >>=-eq-ok (get_price eth big percent_f client abi vsg_eth_pair_address 18 18 false) _
                (rw close at h₂) in
            let (usdt_pool, usdt_reserves, usdt_quote) =
              get_price-inverts eth big percent_f client abi eth_usdt_pair_address 18 6 false usdt
                usdt_quoted in
            let (usdc_pool, usdc_reserves, usdc_quote) =
              get_price-inverts eth big percent_f client abi eth_usdc_pair_address 18 6 true usdc
                usdc_quoted in
            let (vsg_pool, vsg_reserves, vsg_quote) =
              get_price-inverts eth big percent_f client abi vsg_eth_pair_address 18 18 false vsg
                vsg_quoted in
            let (above, below) = deviates-inverts eth big percent_f usdt usdc close in
            record {
              client = client;
              abi = abi;
              usdt_pool = usdt_pool;
              usdc_pool = usdc_pool;
              vsg_pool = vsg_pool;
              dialled = dialled;
              parsed = parsed;
              usdt_reserves = usdt_reserves;
              usdc_reserves = usdc_reserves;
              vsg_reserves = vsg_reserves;
              usdt = usdt;
              usdc = usdc;
              vsg = vsg;
              usdt_quote = usdt_quote;
              usdc_quote = usdc_quote;
              vsg_quote = vsg_quote;
              not_above = above;
              not_below = below;
              holds = λ s. ap (lookup s) (sym (ok-injective h₃)) ∙ two_prices s _ _;
            }
      ]

  -- The update by the outcome of each of the calls that are counted.
  uncounted-Outcome :
      (client : eth.Client) (abi : eth.Abi) (r : Result (Dict F))
      → eth.dial public_node_url ≡ ok client
      → eth.abi_json uniswap_pair_abi_json ≡ ok abi
      → pool_prices eth big percent_f client abi ≡ r
      → Outcome (uncounted r).counts (uncounted r).prices
  uncounted-Outcome client abi (ok prices) dialled parsed h =
      (refl, pool_prices-Pools client abi prices dialled parsed h)
  uncounted-Outcome client abi (err e) dialled parsed h = inr refl
  uncounted-Outcome client abi panic dialled parsed h = refl

  parsed-Outcome :
      (client : eth.Client) (abi : Result eth.Abi)
      → eth.dial public_node_url ≡ ok client
      → eth.abi_json uniswap_pair_abi_json ≡ abi
      → let fetched =
          respond {R = eth.Client × eth.Abi}
            (abi >>= λ abi. ok (client, abi))
            λ connected. uncounted (pool_prices eth big percent_f connected.0 connected.1) in
        Outcome fetched.counts fetched.prices
  unfolding respond
  parsed-Outcome client (ok abi) dialled parsed = uncounted-Outcome client abi _ dialled parsed refl
  parsed-Outcome client (err e) dialled parsed = inl (refl, inr parsed)
  parsed-Outcome client panic dialled parsed = refl

  dialled-Outcome :
      (client : Result eth.Client)
      → eth.dial public_node_url ≡ client
      → let fetched =
          respond {R = eth.Client × eth.Abi}
            (client >>= λ client. eth.abi_json uniswap_pair_abi_json >>= λ abi. ok (client, abi))
            λ connected. uncounted (pool_prices eth big percent_f connected.0 connected.1) in
        Outcome fetched.counts fetched.prices
  unfolding respond
  dialled-Outcome (ok client) dialled = parsed-Outcome client _ dialled refl
  dialled-Outcome (err e) dialled = inl (refl, inl dialled)
  dialled-Outcome panic dialled = refl

  -- If uniswap returns prices, they are those of ETHUSD and VSGUSD alone: the average of two quotes of ETH, whose
  -- quotient is neither above 1.25 nor below 0.8, and the quote of VSG times that average; and one success is
  -- counted. Each quote is made from the reserves that the pool's contract answers, neither of them 0: the quotient
  -- of the other token's by the quoted one's, scaled by the decimals of both. If it returns an error, a failure is
  -- counted only if the client could not be dialled or the interface not be parsed, with that error, and else
  -- nothing is counted.
  pub uniswap_price_update-Outcome :
      let fetched = uniswap_price_update eth big percent_f in Outcome fetched.counts fetched.prices
  unfolding uniswap_price_update
  uniswap_price_update-Outcome = dialled-Outcome _ refl
