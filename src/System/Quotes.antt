-- ===== src/System/Quotes.antt =====
-- What is posted for a pair is an invalid 0 or lies between the prices that the providers hold for it.
use mathlib.Core.Path.{subst}
use mathlib.Core.List.{Perm, Permᴰ}
use mathlib.Core.List.Permᴰ
use mathlib.Core.Logic.{∥∥₁_elim}
use pricefeeder.Base.{
  ℕ, ◌≡◌, refl, ◌∙◌, sym, ◌⊎◌, inl, inr, true, false, Bool, Bool-cases, Option, Option-cases, none,
  some, List, [], ◌∷◌, map, All, arith, Dict, lookup, merge, lookup-merge, NodupKeys, ok,
  ok-injective, Text,
}
use pricefeeder.Float.{Float, ◌≼◌, IsIeee}
use pricefeeder.Types.{Pair, Price, RawPrice, Symbol}
use pricefeeder.Provider.{ProviderLoop, get_price, provider_step, price_updates}
use pricefeeder.Provider.Latest.{answer, get_price-eq-answer}
use pricefeeder.Aggregate.{aggregate_price}
use pricefeeder.Aggregate.Bounds.{Within, ValidWithin, aggregate_price-InRange}
use pricefeeder.Aggregate.Order.Positive.{All-perm}
use pricefeeder.Feeder.{gather_price}
use pricefeeder.System.{ask}
use pricefeeder.System.Refines.{update_stored}

module _ {F : Type 0} ⦃d : Float F⦄ {is_finite : F → Bool} (laws : IsIeee F is_finite)
    (lo hi : Pair → F) where
  -- Whatever raw price is there for the symbol of a pair lies in the pair's range.
  abbrev pub Quoted : Dict Symbol × Dict (RawPrice F) → Type 0
  Quoted (mapping, prices) =
      (pair : Pair) (symbol : Symbol) (raw : RawPrice F)
      → lookup pair mapping ≡ some symbol
      → lookup symbol prices ≡ some raw
      → Within laws (lo pair) (hi pair) raw.price

  abbrev quotes_of : ProviderLoop F → Dict Symbol × Dict (RawPrice F)
  quotes_of p = (p.provider.pair_to_symbol_mapping, p.provider.last_prices)

  abbrev pub IsQuoted : ProviderLoop F → Type 0
  IsQuoted p = Quoted (quotes_of p)

  -- A posted price is an invalid 0 or lies in the range of its pair.
  abbrev pub IsBounded : Price F → Type 0
  IsBounded r =
      ((r.valid ≡ false) × (r.price ≡ d.of_nat 0)) ⊎ ((lo r.pair ≼ r.price) × (r.price ≼ hi r.pair))

  stored-IsQuoted :
      (mapping : Dict Symbol) (batch old : Dict (RawPrice F))
      → NodupKeys batch
      → Quoted (mapping, old)
      → Quoted (mapping, batch)
      → Quoted (mapping, merge batch old)
  stored-IsQuoted mapping batch old unique was new pair symbol raw mapped found =
      let both = lookup-merge symbol batch old unique in
      elim (Option-cases (lookup symbol batch)) [
        | inl absent ↦ was pair symbol raw mapped (ground (arith, both))
        | inr (v, here) ↦ new pair symbol raw mapped (ground (arith, both))
      ]

  pub step-IsQuoted :
      (batch : Dict (RawPrice F)) (p : ProviderLoop F)
      → p.running ≡ true
      → NodupKeys batch
      → IsQuoted p
      → Quoted (p.provider.pair_to_symbol_mapping, batch)
      → IsQuoted (provider_step (price_updates batch) p)
  step-IsQuoted batch p on unique old new = subst IsQuoted (sym (update_stored batch p on)) (
      stored-IsQuoted p.provider.pair_to_symbol_mapping batch p.provider.last_prices unique old new)

  abbrev AbstainsOrWithin : Pair → Price F → Type 0
  AbstainsOrWithin pair r = (r.valid ≡ false) ⊎ Within laws (lo pair) (hi pair) r.price

  answer-Within :
      (name : Text) (pair : Pair) (now : ℕ) (mapped : Option Symbol)
      (last : Symbol → Option (RawPrice F))
      → ((symbol : Symbol) (raw : RawPrice F)
          → mapped ≡ some symbol
          → last symbol ≡ some raw
          → Within laws (lo pair) (hi pair) raw.price)
      → AbstainsOrWithin pair (answer name pair now mapped last)
  answer-Within name pair now none last h = inl refl
  answer-Within name pair now (some symbol) last h = elim (Option-cases (last symbol)) [
    | inl absent ↦ inl (rw (absent, answer) refl)
    | inr (raw, found) ↦ inr (rw (found, answer) (h symbol raw refl found))
  ]

  ask-Within :
      (pair : Pair) (now : ℕ) (p : ProviderLoop F)
      → IsQuoted p
      → AbstainsOrWithin pair (get_price now p.provider pair)
  ask-Within pair now p quoted =
      subst (AbstainsOrWithin pair) (sym (get_price-eq-answer now p.provider pair)) (
        answer-Within p.provider.source_name pair now
          (lookup pair p.provider.pair_to_symbol_mapping) (λ s. lookup s p.provider.last_prices)
          (quoted pair))

  asked-Within :
      (pair : Pair) (asked : List (ℕ × ProviderLoop F))
      → All IsQuoted (map (λ a. a.1) asked)
      → ValidWithin laws (lo pair) (hi pair) pair (map ask asked)
  asked-Within pair [] h = tt
  asked-Within pair ((now, p) ∷ asked) (hp, h) =
      (ask-Within pair now p hp, asked-Within pair asked h)

  abbrev pub BoundedIfValid : Pair → Price F → Type 0
  BoundedIfValid pair r = r.valid ≡ true → (lo pair ≼ r.price) × (r.price ≼ hi pair)

  -- What the aggregate makes of the providers' answers, in whatever order it asks them.
  pub aggregate-InRange :
      (pair : Pair) (asked : List (ℕ × ProviderLoop F)) (providers : List (ProviderLoop F))
      (price : Price F)
      → Perm (map (λ a. a.1) asked) providers
      → All IsQuoted providers
      → (aggregate_price (map ask asked) pair).0 ≡ ok price
      → BoundedIfValid pair price
  aggregate-InRange pair asked providers price order quoted found =
      let bounded : Permᴰ (map (λ a. a.1) asked) providers → BoundedIfValid pair price = λ p.
        let h = asked-Within pair asked (All-perm IsQuoted (Permᴰ.symm p) quoted) in
        let (r, computed, within) =
          aggregate_price-InRange laws (lo pair) (hi pair) (map ask asked) pair h in
        subst (BoundedIfValid pair) (ok-injective (sym computed ∙ found))
          (λ valid. elim within [ inl off ↦ absurd (ground arith) | inr both ↦ both ]) in
      let alike : IsProp (BoundedIfValid pair price) = hlevel in ∥∥₁_elim order alike bounded

  pub gathered-IsBounded :
      (pair : Pair) (price : Price F)
      → price.pair ≡ pair
      → BoundedIfValid pair price
      → IsBounded (gather_price (λ _. price) pair)
  unfolding gather_price
  gathered-IsBounded pair price named within = elim (Bool-cases price.valid) [
    | inl valid ↦
        rw valid (
          inr (subst (λ p. (lo p ≼ price.price) × (price.price ≼ hi p)) (sym named) (within valid)))
    | inr off ↦ rw off (inl (refl, refl))
  ]
