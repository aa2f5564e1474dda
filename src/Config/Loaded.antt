-- ===== src/Config/Loaded.antt =====
-- What `Get` and `MustGet` return.
use mathlib.Core.Path.{subst}
use pricefeeder.Base.{
  Dict, All, Bool, true, false, or_else, or_else-none, if◌then◌else◌, or_else_assoc, Bool-cases,
  inl, inr, ◌⊎◌, ◌≡◌, ◌≢◌, refl, ◌∙◌, ap, sym, Option, none, some, [], ◌∷◌, Text, text, text_eq,
  text_eq_iff, lookup, insert, lookup-insert, NodupKeys, Result, ok, err, panic, must, >>=-eq-ok,
  must-eq-ok, ok-injective, arith,
}
use pricefeeder.Types.{Symbol, Pair}
use pricefeeder.Config.{
  SymbolMaps, Config, ConfigDeps, validate, set_pairs, override_maps, overridden, source_configs,
  validator_of, invalid_json, with_maps, get_with, get, must_get,
}

-- The ticker that an override gives a pair: that of the last name that stands for the pair.
abbrev pub given : (Text → Result Pair) → Pair → Dict Text → Option Symbol
given must_new_pair pair [] = none
given must_new_pair pair ((name, ticker) ∷ rest) =
    or_else (given must_new_pair pair rest) (elim (must_new_pair name) [
      | ok p ↦ if text_eq p pair then some ticker else none
      | err e ↦ none
      | panic ↦ none
    ])

-- Every name stands for a pair.
abbrev pub AllPairs : (Text → Result Pair) → Dict Text → Type 0
AllPairs must_new_pair = All (λ entry. (p : Pair) × (must_new_pair entry.0 ≡ ok p))

-- What the override says of an exchange, and what its map is afterwards.
abbrev pub Override :
    ConfigDeps → Option (Dict Text) → Option (Dict Symbol) → Option (Dict Symbol) → Type 0
Override deps none before after = after ≡ before
Override deps (some symbols) before after =
    (m : Dict Symbol) × (after ≡ some m)
    × AllPairs deps.must_new_pair symbols
    × ((pair : Pair) → lookup pair m ≡ given deps.must_new_pair pair symbols)

module _ (deps : ConfigDeps) where
  if_or_else :
      (b : Bool) (ticker : Symbol) (before : Option Symbol)
      → (if b then some ticker else before) ≡ or_else (if b then some ticker else none) before
  if_or_else true ticker before = refl
  if_or_else false ticker before = refl

  set_pairs-given :
      (names : Dict Text) (symbols m : Dict Symbol)
      → set_pairs deps names symbols ≡ ok m
      → AllPairs deps.must_new_pair names
        × ((pair : Pair)
            → lookup pair m ≡ or_else (given deps.must_new_pair pair names) (lookup pair symbols))
  unfolding set_pairs
  set_pairs-given [] symbols m h = (tt, λ pair. ap (lookup pair) (sym (ok-injective h)))
  set_pairs-given ((name, ticker) ∷ rest) symbols m h =
      let (p, stands, h₁) = >>=-eq-ok (deps.must_new_pair name) _ h in
      let (all, found) = set_pairs-given rest (insert p ticker symbols) m h₁ in
      (
        ((p, stands), all),
        λ pair.
            let last = given deps.must_new_pair pair rest in
            let now = if text_eq p pair then some ticker else none in
            let stored =
              lookup-insert p pair ticker symbols ∙ if_or_else (text_eq p pair) ticker _ in
            rw stands (found pair ∙ ap (or_else last) stored ∙ or_else_assoc last now _),
      )

  override_maps-Override :
      (overrides : Dict (Dict Text)) (maps after : SymbolMaps) (exchange : Text)
      → NodupKeys overrides
      → override_maps deps overrides maps ≡ ok after
      → Override deps (lookup exchange overrides) (lookup exchange maps) (lookup exchange after)
  unfolding override_maps lookup
  override_maps-Override [] maps after exchange u h = ap (lookup exchange) (sym (ok-injective h))
  override_maps-Override ((name, symbols) ∷ rest) maps after exchange (fresh, u) h =
      let (m, made, h₁) = >>=-eq-ok (set_pairs deps symbols []) _ h in
      let (all, found) = set_pairs-given symbols [] m made in
      let later = override_maps-Override rest (insert name m maps) after exchange u h₁ in
      elim (Bool-cases (text_eq name exchange)) [
        | inl here ↦
            let absent : lookup exchange rest ≡ none =
              subst (λ x. lookup x rest ≡ none) ((text_eq_iff name exchange).0 here) fresh in
            let kept : lookup exchange after ≡ lookup exchange (insert name m maps) =
              subst
                (λ o.
                  Override deps o (lookup exchange (insert name m maps)) (lookup exchange after))
                absent later in
            let stored : lookup exchange (insert name m maps) ≡ some m =
              lookup-insert name exchange m maps ∙ rw here refl in
            rw here
              (m, kept ∙ stored, all, λ pair. found pair ∙ or_else-none (given _ pair symbols))
        | inr other ↦
            let same : lookup exchange (insert name m maps) ≡ lookup exchange maps =
              lookup-insert name exchange m maps ∙ rw other refl in
            rw other (
              subst (λ o. Override deps (lookup exchange rest) o (lookup exchange after)) same
                later)
      ]

  -- An override of the symbols, a JSON object without repeated names, replaces the map of every exchange
  -- that it names, and leaves the map of every other exchange as it was. The new map has for each pair the ticker
  -- of the last name that stands for the pair, and nothing for other pairs; every name stands for a pair.
  pub overridden-Override :
      (json : Text) (overrides : Dict (Dict Text)) (defaults after : SymbolMaps) (exchange : Text)
      → json ≢ []
      → deps.unmarshal_symbols json ≡ ok overrides
      → NodupKeys overrides
      → overridden deps json defaults ≡ ok after
      → Override deps (lookup exchange overrides) (lookup exchange defaults) (lookup exchange after)
  unfolding overridden
  overridden-Override [] overrides defaults after exchange some_json decoded u h =
      absurd (some_json refl)
  overridden-Override (c ∷ json) overrides defaults after exchange some_json decoded u h =
      override_maps-Override overrides defaults after exchange u (rw decoded at h)

  pub record IsComplete (getenv : Text → Text) (defaults : SymbolMaps) (c : Config)
      (after : SymbolMaps) : Type 0 where
    pub has_chain_id : (c.chain_id ≡ getenv (text "CHAIN_ID")) × (c.chain_id ≢ [])
    pub has_mnemonic :
        (c.feeder_mnemonic ≡ getenv (text "FEEDER_MNEMONIC")) × (c.feeder_mnemonic ≢ [])
    pub has_websocket :
        (c.websocket_endpoint ≡ getenv (text "WEBSOCKET_ENDPOINT")) × (c.websocket_endpoint ≢ [])
    pub has_grpc : (c.grpc_endpoint ≡ getenv (text "GRPC_ENDPOINT")) × (c.grpc_endpoint ≢ [])
    pub tls : c.enable_tls ≡ text_eq (getenv (text "ENABLE_TLS")) (text "true")
    pub maps : overridden deps (getenv (text "EXCHANGE_SYMBOLS_MAP")) defaults ≡ ok after
    pub shared : c.exchanges_to_pair_to_symbol_map ≡ after
    pub sources :
        ((getenv (text "DATASOURCE_CONFIG_MAP") ≡ []) × (c.data_source_config_map ≡ []))
        ⊎ ((getenv (text "DATASOURCE_CONFIG_MAP") ≢ [])
            × (deps.unmarshal_sources (getenv (text "DATASOURCE_CONFIG_MAP"))
                ≡ ok c.data_source_config_map))
    pub validator :
        ((getenv (text "VALIDATOR_ADDRESS") ≡ []) × (c.validator_addr ≡ none))
        ⊎ ((getenv (text "VALIDATOR_ADDRESS") ≢ [])
            × (c.validator_addr ≡ deps.val_address (getenv (text "VALIDATOR_ADDRESS"))))

  source_configs-inverts :
      (json : Text) (m : Dict Text)
      → source_configs deps json ≡ ok m
      → ((json ≡ []) × (m ≡ [])) ⊎ ((json ≢ []) × (deps.unmarshal_sources json ≡ ok m))
  unfolding source_configs invalid_json
  source_configs-inverts [] m h = inl (refl, sym (ok-injective h))
  source_configs-inverts (c ∷ json) m h = inr ((λ e. ground (arith, e)), ground (arith, h))

  validator_of-cases :
      (address : Text)
      → ((address ≡ []) × (validator_of deps address ≡ none))
        ⊎ ((address ≢ []) × (validator_of deps address ≡ deps.val_address address))
  unfolding validator_of
  validator_of-cases [] = inl (refl, refl)
  validator_of-cases (c ∷ address) = inr ((λ e. ground (arith, e)), refl)

  validate-nonempty :
      (c : Config)
      → validate c ≡ ok tt
      → (c.chain_id ≢ [])
        × (c.feeder_mnemonic ≢ [])
        × (c.websocket_endpoint ≢ [])
        × (c.grpc_endpoint ≢ [])
  unfolding validate
  validate-nonempty c h = ground (
    arith,
    text_eq_iff c.chain_id [],
    text_eq_iff c.feeder_mnemonic [],
    text_eq_iff c.websocket_endpoint [],
    text_eq_iff c.grpc_endpoint [],
  )

  IsComplete-after :
      (getenv : Text → Text) (defaults : SymbolMaps) (c : Config) (after : SymbolMaps)
      (r : Result SymbolMaps)
      → overridden deps (getenv (text "EXCHANGE_SYMBOLS_MAP")) defaults ≡ r
      → must (get_with deps getenv r defaults).0 ≡ ok c
      → (get_with deps getenv r defaults).1 ≡ after
      → IsComplete getenv defaults c after
  unfolding get_with with_maps
  IsComplete-after getenv defaults c after (err e) read h same = absurd (ground arith)
  IsComplete-after getenv defaults c after panic read h same = absurd (ground arith)
  IsComplete-after getenv defaults c after (ok maps) read h same =
      let made : with_maps deps getenv maps ≡ ok c = must-eq-ok _ h in
      let (sources, sources_ok, h₁) =
        >>=-eq-ok (source_configs deps (getenv (text "DATASOURCE_CONFIG_MAP"))) _ made in
      let (done, valid, h₂) = >>=-eq-ok (validate _) _ h₁ in
      let (chain, mnemonic, websocket, grpc) = validate-nonempty _ valid in
      subst (λ q. IsComplete getenv defaults q after) (ok-injective h₂)
        (record {
          has_chain_id = (refl, chain);
          has_mnemonic = (refl, mnemonic);
          has_websocket = (refl, websocket);
          has_grpc = (refl, grpc);
          tls = refl;
          maps = read ∙ ap ok same;
          shared = same;
          sources = source_configs-inverts _ sources sources_ok;
          validator = validator_of-cases (getenv (text "VALIDATOR_ADDRESS"));
        })

  -- A configuration that `MustGet` returns has a chain id, a mnemonic and both endpoints, none of them
  -- empty, as the environment gives them; TLS is on exactly if ENABLE_TLS is "true"; and its symbols are
  -- the overridden ones, which are the package's from then on. The configurations of the sources are those that
  -- DATASOURCE_CONFIG_MAP decodes to, and none if it is empty; the validator is the one that VALIDATOR_ADDRESS
  -- parses to, and none if it is empty or does not parse.
  pub must_get-IsComplete :
      (getenv : Text → Text) (defaults : SymbolMaps) (c : Config) (after : SymbolMaps)
      → must_get deps getenv defaults ≡ (ok c, after)
      → IsComplete getenv defaults c after
  unfolding must_get get
  must_get-IsComplete getenv defaults c after h =
      IsComplete-after getenv defaults c after _ refl (ap (λ p. p.0) h) (ap (λ p. p.1) h)

  -- An override outlives the call that read it: the next `MustGet`, in an environment without one, returns
  -- the same symbols and not the package's defaults.
  pub must_get_again :
      (getenv later_getenv : Text → Text) (defaults : SymbolMaps) (c d : Config)
      (after later : SymbolMaps)
      → must_get deps getenv defaults ≡ (ok c, after)
      → later_getenv (text "EXCHANGE_SYMBOLS_MAP") ≡ []
      → must_get deps later_getenv after ≡ (ok d, later)
      → d.exchanges_to_pair_to_symbol_map ≡ c.exchanges_to_pair_to_symbol_map
  unfolding overridden
  must_get_again getenv later_getenv defaults c d after later first unset second =
      let earlier = must_get-IsComplete getenv defaults c after first in
      let next = must_get-IsComplete later_getenv after d later second in
      let kept : later ≡ after = sym (ok-injective (rw unset at next.maps)) in
      next.shared ∙ kept ∙ sym earlier.shared
