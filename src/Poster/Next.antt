-- ===== src/Poster/Next.antt =====
-- What the round after a successful one reveals.
use mathlib.Core.Path.{subst}
use pricefeeder.Base.{◌≡◌, refl, ap, sym, ◌↔◌, true, some, List, [], ◌∷◌, ok}
use pricefeeder.Float.{Float}
use pricefeeder.Types.{Price, VotingPeriod}
use pricefeeder.Signing.{vote_msg}
use pricefeeder.Poster.{OracleLib, Deps, Prevote, Client, round_msgs, send_prices}
use pricefeeder.Poster.Reveal.{round_msgs-reveal}
use pricefeeder.Poster.Round.{IsCommitted, new_prevote-commits, send_prices-outcome}

module _ (lib : OracleLib) {F : Type 0} ⦃d : Float F⦄ where
  -- After a round that ended with the label "true", the client keeps a prevote whose message committed to its
  -- salt and rates. The next round, whatever it commits to itself, puts the vote with this salt and
  -- these rates first exactly if the chain then answers with the hash that was committed to.
  pub next_round-reveals :
      (deps later : Deps) (c c' : Client) (vp : VotingPeriod) (prices : List (Price F))
      (new : Prevote)
      → send_prices lib deps c vp prices ≡ ok (c', true)
      → (p : Prevote) × (c'.previous_prevote ≡ some p)
        × IsCommitted lib c.validator c.feeder p
        × ((round_msgs lib later new c'.previous_prevote c.validator c.feeder
              ≡ ok (vote_msg p.salt p.vote c.feeder c.validator ∷ new.msg ∷ []))
            ↔ (later.aggregate_prevote c.validator ≡ ok (lib.vote_hash p.salt p.vote c.validator)))
  next_round-reveals deps later c c' vp prices new sent =
      let (p, msgs, r, made, _, _, _, same) =
        (send_prices-outcome lib deps c c' vp prices true sent).0 refl in
      let kept : c'.previous_prevote ≡ some p = ap (λ (k : Client). k.previous_prevote) same in
      (
        p,
        kept,
        new_prevote-commits lib deps.rand_int prices c.validator c.feeder p made,
        subst
            (λ old.
              (round_msgs lib later new old c.validator c.feeder
                ≡ ok (vote_msg p.salt p.vote c.feeder c.validator ∷ new.msg ∷ []))
              ↔ (later.aggregate_prevote c.validator
                  ≡ ok (lib.vote_hash p.salt p.vote c.validator)))
            (sym kept) (round_msgs-reveal lib later c.validator c.feeder new p).0,
      )
