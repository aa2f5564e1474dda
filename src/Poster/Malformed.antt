-- ===== src/Poster/Malformed.antt =====
-- A price that is no decimal numeral when it is formatted, such as NaN or an infinity.
use pricefeeder.Base.{
  ◌≡◌, refl, List, [], ◌∷◌, ◌++◌, Text, Result, ok, err, panic, must, ◌⊎◌, inl, inr,
}
use pricefeeder.Float.{Float}
use pricefeeder.Types.{Price, VotingPeriod}
use pricefeeder.PriceText.{float64_to_dec, cut_price}
use pricefeeder.Poster.{OracleLib, Deps, Client, new_prevote, exchange_rates, send_prices}

must-cases {ℓ} : {A : Type ℓ} (r : Result A) → (must r ≡ panic) ⊎ ((a : A) × (must r ≡ ok a))
must-cases (ok a) = inr (a, refl)
must-cases (err e) = inl refl
must-cases panic = inl refl

module _ (lib : OracleLib) {F : Type 0} ⦃d : Float F⦄ (bad : Price F) (e : Text)
    (refused : lib.new_dec (cut_price (d.format bad.price)) ≡ err e) where
  exchange_rates_malformed :
      (before after : List (Price F)) → exchange_rates lib (before ++ (bad ∷ after)) ≡ panic
  unfolding exchange_rates float64_to_dec
  exchange_rates_malformed [] after = rw refused refl
  exchange_rates_malformed (p ∷ before) after =
      elim (must-cases (lib.new_dec (cut_price (d.format p.price)))) [
        | inl stops ↦ rw stops refl
        | inr (rate, made) ↦ rw (made, exchange_rates_malformed before after) refl
      ]

  -- One price whose formatted text the decimal type refuses makes `SendPrices` panic, wherever it
  -- stands among the prices and whatever the chain would answer.
  pub send_prices_malformed :
      (deps : Deps) (c : Client) (vp : VotingPeriod) (before after : List (Price F))
      → send_prices lib deps c vp (before ++ (bad ∷ after)) ≡ panic
  unfolding send_prices new_prevote
  send_prices_malformed deps c vp before after = rw (exchange_rates_malformed before after) refl
