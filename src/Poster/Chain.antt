-- ===== src/Poster/Chain.antt =====
-- Many calls of `SendPrices`, one after the other: what a vote reveals are the prices of the round
-- before.
use mathlib.Core.Path.{subst}
use pricefeeder.Base.{
  ◌≡◌, refl, ◌∙◌, ap, sym, ◌⊎◌, inl, inr, Bool, true, false, Option, none, some, List, [], ◌∷◌,
  Text, Result, ok, All, ◌>>=◌, through, must, must-eq-ok, ok-injective, ℕ,
}
use pricefeeder.Float.{Float}
use pricefeeder.Types.{Pair, Price, VotingPeriod}
use pricefeeder.PriceText.{float64_to_dec}
use pricefeeder.PriceText.Kept.{IsRate, float64_to_dec-IsRate}
use pricefeeder.Signing.{Msg, vote_msg}
use pricefeeder.Poster.{
  OracleLib, Deps, Prevote, Client, max_salt_number, exchange_rates, new_prevote, round_msgs,
  send_prices,
}
use pricefeeder.Poster.Reveal.{round_msgs-shape}
use pricefeeder.Poster.Round.{send_prices-outcome}

-- A call with the answers of the chain to it.
abbrev pub Round : Type 0 → Type 1
Round F = Deps × VotingPeriod × List (Price F)

-- The prices of the rounds that were accepted, the last one first.
abbrev pub accept :
    {F : Type 0} → Bool → List (Price F) → List (List (Price F)) → List (List (Price F))
accept true prices accepted = prices ∷ accepted
accept false prices accepted = accepted

accept-All :
    {F : Type 0} (P : List (Price F) → Type 0) (success : Bool) (prices : List (Price F))
    (accepted : List (List (Price F)))
    → P prices
    → All P accepted
    → All P (accept success prices accepted)
accept-All P true prices accepted hp h = (hp, h)
accept-All P false prices accepted hp h = h

-- The posts, each with the answers of the chain to it.
abbrev pub with_answers :
    {F : Type 0} → List Deps → List (VotingPeriod × List (Price F)) → List (Round F)
with_answers (deps ∷ chain) ((vp, prices) ∷ posts) = (deps, vp, prices) ∷ with_answers chain posts
with_answers _ _ = []

pub with_answers-All :
    {F : Type 0} (P : VotingPeriod × List (Price F) → Type 0) (chain : List Deps)
    (posts : List (VotingPeriod × List (Price F)))
    → All P posts
    → All (λ (r : Round F). P (r.1, r.2)) (with_answers chain posts)
with_answers-All P [] posts h = tt
with_answers-All P (deps ∷ chain) [] h = tt
with_answers-All P (deps ∷ chain) ((vp, prices) ∷ posts) (hp, h) =
    (hp, with_answers-All P chain posts h)

module _ (lib : OracleLib) {F : Type 0} ⦃d : Float F⦄ where
  -- `SendPrices` at each of the rounds.
  unfoldable pub run_rounds :
      List (Round F) → Client → List (List (Price F)) → Result (Client × List (List (Price F)))
  run_rounds [] c accepted = ok (c, accepted)
  run_rounds ((deps, vp, prices) ∷ rounds) c accepted = send_prices lib deps c vp prices >>= λ sent.
      run_rounds rounds sent.0 (accept sent.1 prices accepted)

  -- One rate for each price, of its pair, in their order.
  abbrev pub AreRates : List (Price F) → List (Pair × lib.Decimal) → Type 0
  AreRates [] [] = Unit
  AreRates (price ∷ prices) ((pair, rate) ∷ rates) =
      (pair ≡ price.pair) × IsRate lib.new_dec price.price rate × AreRates prices rates
  AreRates _ _ = ⊥

  -- The text of the prices, as the oracle's package prints one rate for each of them.
  abbrev pub IsText : List (Price F) → Text → Type 0
  IsText prices text_of_rates =
      (rates : List (Pair × lib.Decimal)) × AreRates prices rates
      × (lib.tuples_to_string rates ≡ ok text_of_rates)

  exchange_rates-AreRates :
      (prices : List (Price F)) (rates : List (Pair × lib.Decimal))
      → exchange_rates lib prices ≡ ok rates
      → AreRates prices rates
  unfolding exchange_rates
  exchange_rates-AreRates [] rates h = subst (AreRates []) (ok-injective h) tt
  exchange_rates-AreRates (price ∷ prices) rates h =
      through (float64_to_dec lib.new_dec price.price) _ h λ rate made h₁.
        through (exchange_rates lib prices) _ h₁ λ rest others h₂.
          subst (AreRates (price ∷ prices)) (ok-injective h₂) (
            refl,
            float64_to_dec-IsRate lib.new_dec price.price rate made,
            exchange_rates-AreRates prices rest others,
          )

  new_prevote-IsText :
      (rand_int : ℕ → Result ℕ) (prices : List (Price F)) (validator feeder : Text) (p : Prevote)
      → new_prevote lib rand_int prices validator feeder ≡ ok p
      → IsText prices p.vote
  unfolding new_prevote
  new_prevote-IsText rand_int prices validator feeder p h =
      through (exchange_rates lib prices) _ h λ tuple made h₁.
        through (must (lib.tuples_to_string tuple)) _ h₁ λ votes_str printed h₂.
          through (must (rand_int max_salt_number)) _ h₂ λ n drawn h₃. (
            tuple,
            exchange_rates-AreRates prices tuple made,
            must-eq-ok _ printed ∙ ap ok (ap (λ (q : Prevote). q.vote) (ok-injective h₃)),
          )

  -- What the client keeps is the text of the prices that were accepted last.
  Keeps : Option Prevote → List (List (Price F)) → Type 0
  Keeps none accepted = accepted ≡ []
  Keeps (some p) accepted =
      (prices : List (Price F)) × (earlier : List (List (Price F))) × (accepted ≡ prices ∷ earlier)
      × IsText prices p.vote

  record Inv (validator feeder : Text) (c : Client) (accepted : List (List (Price F)))
      : Type 0 where
    own_validator : c.validator ≡ validator
    own_feeder : c.feeder ≡ feeder
    keeps : Keeps c.previous_prevote accepted

  step-Inv :
      (deps : Deps) (vp : VotingPeriod) (prices : List (Price F)) (validator feeder : Text)
      (c c' : Client) (accepted : List (List (Price F))) (success : Bool)
      → send_prices lib deps c vp prices ≡ ok (c', success)
      → Inv validator feeder c accepted
      → Inv validator feeder c' (accept success prices accepted)
  unfolding Keeps
  step-Inv deps vp prices validator feeder c c' accepted true sent inv =
      let (new, msgs, r, made, _, _, _, same) =
        (send_prices-outcome lib deps c c' vp prices true sent).0 refl in
      subst (λ (k : Client). Inv validator feeder k (prices ∷ accepted)) (sym same)
        (record {
          own_validator = inv.own_validator;
          own_feeder = inv.own_feeder;
          keeps = (
            prices,
            accepted,
            refl,
            new_prevote-IsText deps.rand_int prices c.validator c.feeder new made,
          );
        })
  step-Inv deps vp prices validator feeder c c' accepted false sent inv =
      let same = (send_prices-outcome lib deps c c' vp prices false sent).1 refl in
      subst (λ (k : Client). Inv validator feeder k accepted) (sym same) inv

  run-Inv :
      (rounds : List (Round F)) (validator feeder : Text) (c c' : Client)
      (before after : List (List (Price F)))
      → run_rounds rounds c before ≡ ok (c', after)
      → Inv validator feeder c before
      → Inv validator feeder c' after
  unfolding run_rounds
  run-Inv [] validator feeder c c' before after h inv =
      subst (λ p. Inv validator feeder p.0 p.1) (ok-injective h) inv
  run-Inv ((deps, vp, prices) ∷ rounds) validator feeder c c' before after h inv =
      through (send_prices lib deps c vp prices) _ h λ (next, success) sent h₁.
        run-Inv rounds validator feeder next c' (accept success prices before) after h₁
          (step-Inv deps vp prices validator feeder c next before success sent inv)

  -- What holds of the prices of all rounds holds of those that were accepted.
  pub run_rounds-All :
      (P : List (Price F) → Type 0) (rounds : List (Round F)) (c c' : Client)
      (before after : List (List (Price F)))
      → All (λ (r : Round F). P r.2) rounds
      → All P before
      → run_rounds rounds c before ≡ ok (c', after)
      → All P after
  unfolding run_rounds
  run_rounds-All P [] c c' before after hs hb h = subst (λ p. All P p.1) (ok-injective h) hb
  run_rounds-All P ((deps, vp, prices) ∷ rounds) c c' before after (hp, hs) hb h =
      through (send_prices lib deps c vp prices) _ h λ (next, success) sent h₁.
        run_rounds-All P rounds next c' (accept success prices before) after hs
          (accept-All P success prices before hp hb) h₁

  -- A client that starts fresh and goes through any rounds, whatever the chain answers: the
  -- messages that it makes next are the new prevote alone, or a vote and the new prevote, and the
  -- rates that the vote reveals are the printed list of the rates of the last round that was accepted: one for
  -- each of its prices, in their order, of the price's pair, read from the price's text, of which at most 18
  -- digits behind the point are kept. Rounds that failed in between do not matter.
  pub run_rounds-reveals :
      (rounds : List (Round F)) (validator feeder : Text) (c : Client)
      (accepted : List (List (Price F))) (deps : Deps) (new : Prevote) (msgs : List Msg)
      → run_rounds rounds
          (record { validator = validator; feeder = feeder; previous_prevote = none })
          []
        ≡ ok (c, accepted)
      → round_msgs lib deps new c.previous_prevote c.validator c.feeder ≡ ok msgs
      → (msgs ≡ new.msg ∷ [])
        ⊎ ((prices : List (Price F)) × (earlier : List (List (Price F))) × (salt : Text)
            × (rates : Text) × (accepted ≡ prices ∷ earlier)
            × IsText prices rates
            × (msgs ≡ vote_msg salt rates feeder validator ∷ new.msg ∷ []))
  unfolding Keeps
  run_rounds-reveals rounds validator feeder c accepted deps new msgs ran prepared =
      let inv =
        run-Inv rounds validator feeder _ c [] accepted ran
          (record { own_validator = refl; own_feeder = refl; keeps = refl }) in
      elim (round_msgs-shape lib deps c.validator c.feeder new c.previous_prevote msgs prepared) [
        | inl alone ↦ inl alone
        | inr (p, old, both) ↦
            let (prices, earlier, last, is_text) = subst (λ o. Keeps o accepted) old inv.keeps in
            inr (
              prices,
              earlier,
              p.salt,
              p.vote,
              last,
              is_text,
              both
                  ∙ ap (λ f. vote_msg p.salt p.vote f c.validator ∷ new.msg ∷ []) inv.own_feeder
                  ∙ ap (λ v. vote_msg p.salt p.vote feeder v ∷ new.msg ∷ []) inv.own_validator,
            )
      ]
