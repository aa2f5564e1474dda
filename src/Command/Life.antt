-- ===== src/Command/Life.antt =====
-- A started daemon over its whole life: what it posts, and that an interrupt ends it.
use mathlib.Core.Path.{subst}
use pricefeeder.Base.{
  ◌⊎◌, inl, inr, none, List, [], ◌∷◌, ◌≡◌, refl, ok, Bool, Option, Text, map, All, true,
}
use pricefeeder.Float.{Float}
use pricefeeder.Types.{Price, VotingPeriod, Params}
use pricefeeder.Prefixes.{Globals}
use pricefeeder.Config.{SymbolMaps}
use pricefeeder.Keyring.Auth.{IsBytes}
use pricefeeder.System.{System, selecting, SystemReach}
use pricefeeder.System.Refines.{posts_of}
use pricefeeder.System.Posted.{told, IsPost, posts-IsPost}
use pricefeeder.System.Stops.{IsGone, close_returns}
use pricefeeder.Signing.{Msg, vote_msg}
use pricefeeder.Poster.{OracleLib, Deps, Prevote, Client, round_msgs}
use pricefeeder.Poster.Chain.{
  run_rounds, with_answers, with_answers-All, run_rounds-All, IsText, run_rounds-reveals,
}
use pricefeeder.Command.{RootDeps, Daemon, root_run}
use pricefeeder.Command.Running.{root_run-IsRunning}

module _ {F : Type 0} ⦃d : Float F⦄ (deps : RootDeps F) where
  -- The goroutines that run after the start.
  abbrev pub system_of : Daemon F deps → System F
  system_of dm = record {
    feeder = dm.feeder;
    phase = selecting;
    providers = map (λ p. p.loop) dm.price_provider;
  }

  -- Prices that are posted for some period.
  abbrev IsPosted : List Params → List (Price F) → Type 0
  IsPosted params_told prices = (vp : VotingPeriod) × IsPost params_told (vp, prices)

  All-IsPosted :
      (params_told : List Params) (posts : List (VotingPeriod × List (Price F)))
      → All (IsPost params_told) posts
      → All (λ post. IsPosted params_told post.1) posts
  All-IsPosted params_told [] h = tt
  All-IsPosted params_told ((vp, prices) ∷ posts) (h, hs) =
      ((vp, h), All-IsPosted params_told posts hs)

  module _ (debug : Bool) (getenv : Text → Text) (defaults : SymbolMaps)
      (globals : Globals deps.sdk) (init_params : Option Params) (dm : Daemon F deps)
      (bytes : (seed path priv : Text) → deps.key_deps.derive seed path ≡ ok priv → IsBytes priv)
      (up : root_run deps debug getenv defaults globals init_params ≡ ok dm) where
    -- A started daemon can be ended at any time by an interrupt: the loops of the providers and of their
    -- sources are gone by then.
    pub daemon-ends :
        {t : System F} (reach : SystemReach (system_of dm) t)
        → t.feeder.running ≡ true
        → (u : System F) × SystemReach (system_of dm) u × All IsGone u.providers
    daemon-ends reach on =
        let facts = root_run-IsRunning deps debug getenv defaults globals init_params dm bytes up in
        let (u, reached, gone, _, _, _) = close_returns facts.alive reach on in (u, reached, gone)

    -- From the start of the daemon to the chain: whatever the order in which its parts take their steps, and
    -- whatever the chain answers to the posts, the messages that its client makes next are the new prevote alone,
    -- or a vote and the new prevote. The vote is for the daemon's validator, and the rates that it reveals
    -- are the printed list of the rates of prices that the daemon posted: one for each pair of parameters that it
    -- was told, in their order, with 0 for each price that is not valid, read from the price's text, of which at
    -- most 18 digits behind the point are kept.
    pub daemon-reveals :
        (lib : OracleLib) {t : System F} (reach : SystemReach (system_of dm) t) (chain : List Deps)
        (c : Client) (accepted : List (List (Price F))) (now : Deps) (new : Prevote)
        (msgs : List Msg)
        → run_rounds lib (with_answers chain (posts_of t.feeder.calls)) dm.client []
          ≡ ok (c, accepted)
        → round_msgs lib now new c.previous_prevote c.validator c.feeder ≡ ok msgs
        → (msgs ≡ new.msg ∷ [])
          ⊎ ((vp : VotingPeriod) × (prices : List (Price F)) × (salt : Text) × (rates : Text)
              × IsPost (told reach) (vp, prices)
              × IsText lib prices rates
              × (msgs ≡ vote_msg salt rates dm.client.feeder dm.client.validator ∷ new.msg ∷ []))
    daemon-reveals lib {t} reach chain c accepted now new msgs ran prepared =
        let facts = root_run-IsRunning deps debug getenv defaults globals init_params dm bytes up in
        let posts = posts-IsPost reach refl facts.fresh in
        let rounds = with_answers chain (posts_of t.feeder.calls) in
        let ran' : run_rounds lib rounds
              (record {
                validator = dm.client.validator;
                feeder = dm.client.feeder;
                previous_prevote = none;
              })
              []
            ≡ ok (c, accepted) =
          subst
            (λ previous.
              run_rounds lib rounds
                (record {
                  validator = dm.client.validator;
                  feeder = dm.client.feeder;
                  previous_prevote = previous;
                })
                []
              ≡ ok (c, accepted))
            facts.no_prevote ran in
        let good =
          run_rounds-All lib (IsPosted (told reach)) rounds dm.client c [] accepted
            (with_answers-All (λ post. IsPosted (told reach) post.1) chain (posts_of t.feeder.calls)
              (All-IsPosted (told reach) (posts_of t.feeder.calls) posts))
            tt ran in
        elim (run_rounds-reveals lib rounds dm.client.validator dm.client.feeder c accepted now new
          msgs ran' prepared) [
            | inl alone ↦ inl alone
            | inr (prices, earlier, salt, rates, last, is_text, both) ↦
                let ((vp, post), _) = subst (All (IsPosted (told reach))) last good in
                inr (vp, prices, salt, rates, post, is_text, both)
          ]
