-- ===== src/Poster/Round.antt =====
-- How a call of `SendPrices` can end, and what it keeps.
use mathlib.Core.Path.{subst}
use pricefeeder.Base.{
  suc, ◌^◌, ℕ, ◌≡◌, refl, true, false, Bool, some, List, Text, Result, ok, err, panic, must,
  >>=-eq-ok, must-eq-ok, arith, ◌<◌, ◌≤◌, length, decimal-ne-nil, length-decimal, ok-injective, ◌⊎◌,
  inl, inr, Bool-cases,
}
use pricefeeder.Float.{Float}
use pricefeeder.Types.{Price, VotingPeriod}
use pricefeeder.Signing.{Msg, prevote_msg, TxResponse}
use pricefeeder.Signing.Outcomes.{Broadcast, Broadcast-of_ok}
use pricefeeder.Poster.{
  OracleLib, Deps, Prevote, Client, max_salt_number, new_prevote, exchange_rates, round_msgs, vote,
  finish_round, send_prices,
}

-- The message of a prevote commits to its salt and rates.
abbrev pub IsCommitted : OracleLib → Text → Text → Prevote → Type 0
IsCommitted lib validator feeder p =
    p.msg ≡ prevote_msg (lib.vote_hash p.salt p.vote validator) feeder validator

finish_round-outcome :
    (lib : OracleLib) (c c' : Client) (new : Prevote) (sent : Result TxResponse) (success : Bool)
    → finish_round lib c new sent ≡ ok (c', success)
    → (success ≡ true
        → (r : TxResponse) × (sent ≡ ok r) × (c' ≡ record c { previous_prevote = some new }))
      × (success ≡ false → c' ≡ c)
unfolding finish_round
finish_round-outcome lib c c' new (ok r) success h =
    let same = ok-injective h in ((λ done. (r, refl, ground arith)), (λ failed. ground arith))
finish_round-outcome lib c c' new (err e) success h =
    let same = ok-injective h in ((λ done. absurd (ground arith)), (λ failed. ground arith))
finish_round-outcome lib c c' new panic success h =
    ((λ done. absurd (ground arith)), (λ failed. absurd (ground arith)))

module _ (lib : OracleLib) {F : Type 0} ⦃d : Float F⦄ where
  pub new_prevote-commits :
      (rand_int : ℕ → Result ℕ) (prices : List (Price F)) (validator feeder : Text) (p : Prevote)
      → new_prevote lib rand_int prices validator feeder ≡ ok p
      → IsCommitted lib validator feeder p
  unfolding new_prevote
  new_prevote-commits rand_int prices validator feeder p h =
      let (tuple, _, h₁) = >>=-eq-ok (exchange_rates lib prices) _ h in
      let (votes_str, _, h₂) = >>=-eq-ok (must (lib.tuples_to_string tuple)) _ h₁ in
      let (n, drawn, h₃) = >>=-eq-ok (must (rand_int max_salt_number)) _ h₂ in
      subst (IsCommitted lib validator feeder) (ok-injective h₃) refl

  -- A new prevote commits to its salt and rates, and the salt has one to four digits, if the random
  -- number is below its bound.
  pub new_prevote-IsCommitted :
      (rand_int : ℕ → Result ℕ)
      → ((bound n : ℕ) → rand_int bound ≡ ok n → n < bound)
      → (prices : List (Price F)) (validator feeder : Text) (p : Prevote)
      → new_prevote lib rand_int prices validator feeder ≡ ok p
      → IsCommitted lib validator feeder p × (0 < length p.salt) × (length p.salt ≤ 4)
  unfolding new_prevote
  new_prevote-IsCommitted rand_int below prices validator feeder p h =
      let (tuple, _, h₁) = >>=-eq-ok (exchange_rates lib prices) _ h in
      let (votes_str, _, h₂) = >>=-eq-ok (must (lib.tuples_to_string tuple)) _ h₁ in
      let (n, drawn, h₃) = >>=-eq-ok (must (rand_int max_salt_number)) _ h₂ in
      let small : n < 10 ^ suc 3 = omega (arith, below max_salt_number n (must-eq-ok _ drawn)) in
      subst
        (λ (q : Prevote).
          IsCommitted lib validator feeder q × (0 < length q.salt) × (length q.salt ≤ 4))
        (ok-injective h₃) (refl, decimal-ne-nil n, length-decimal n 3 small)

  pub send_prices-outcome :
      (deps : Deps) (c c' : Client) (vp : VotingPeriod) (prices : List (Price F)) (success : Bool)
      → send_prices lib deps c vp prices ≡ ok (c', success)
      → (success ≡ true
          → (new : Prevote) × (msgs : List Msg) × (r : TxResponse) × (new_prevote lib deps.rand_int
                prices c.validator c.feeder
              ≡ ok new)
            × (round_msgs lib deps new c.previous_prevote c.validator c.feeder ≡ ok msgs)
            × Broadcast deps.tx_deps c.feeder msgs r
            × (r.code ≡ 0)
            × (c' ≡ record c { previous_prevote = some new }))
        × (success ≡ false → c' ≡ c)
  unfolding send_prices vote
  send_prices-outcome deps c c' vp prices success h =
      let (new, made, h₁) =
        >>=-eq-ok (new_prevote lib deps.rand_int prices c.validator c.feeder) _ h in
      let (kept, reset) =
        finish_round-outcome lib c c' new
          (vote lib deps new c.previous_prevote c.validator c.feeder) success h₁ in
      (
        λ done.
            let (r, sent, same) = kept done in
            let (msgs, prepared, h₂) =
              >>=-eq-ok (round_msgs lib deps new c.previous_prevote c.validator c.feeder) _ sent in
            let (broadcast, zero_code) = Broadcast-of_ok deps.tx_deps c.feeder msgs r h₂ in
            (new, msgs, r, made, prepared, broadcast, zero_code, same),
        reset,
      )

  -- A call that does not panic ends with the label "true" and has posted: the round's messages were
  -- broadcast and accepted, and the new prevote is kept for the next round. Or it ends with the label
  -- "false", and the client is as before.
  pub send_prices-ends :
      (deps : Deps) (c c' : Client) (vp : VotingPeriod) (prices : List (Price F)) (success : Bool)
      → send_prices lib deps c vp prices ≡ ok (c', success)
      → ((success ≡ true)
          × (new : Prevote) × (msgs : List Msg) × (r : TxResponse) × (new_prevote lib deps.rand_int
                prices c.validator c.feeder
              ≡ ok new)
          × (round_msgs lib deps new c.previous_prevote c.validator c.feeder ≡ ok msgs)
          × Broadcast deps.tx_deps c.feeder msgs r
          × (r.code ≡ 0)
          × (c' ≡ record c { previous_prevote = some new }))
        ⊎ ((success ≡ false) × (c' ≡ c))
  send_prices-ends deps c c' vp prices success h =
      let (posts, keeps) = send_prices-outcome deps c c' vp prices success h in
      elim (Bool-cases success) [
        | inl done ↦
            let (new, msgs, r, made, prepared, broadcast, zero_code, same) = posts done in
            inl (done, new, msgs, r, made, prepared, broadcast, zero_code, same)
        | inr failed ↦ inr (failed, keeps failed)
      ]
