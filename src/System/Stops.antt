-- ===== src/System/Stops.antt =====
-- `Feeder.Close` of feeder/feeder.go on the parts together: the loop takes the stop signal and
-- closes everything.
use mathlib.Core.Path.{subst}
use mathlib.Core.List.{append_assoc}
use pricefeeder.System.Posted.{pair_of}
use pricefeeder.Base.{
  ◌≡◌, refl, ap, sym, true, false, inl, inr, ◌⊎◌, List, [], ◌∷◌, ◌++◌, map, All, arith, Dict,
  NodupKeys,
}
use pricefeeder.Float.{Float}
use pricefeeder.Types.{Pair, Price, VotingPeriod, RawPrice}
use pricefeeder.Provider.{ProviderLoop, provider_step, price_updates, source_closed, done_closed}
use pricefeeder.Aggregate.Closing.{IsRunning, Closing, loops, all_left, close_all-eq-left}
use pricefeeder.Feeder.{
  Feeder, FeederCall, send_prices, close_event_stream, close_price_poster, close_price_provider,
  close_done, handle_params_update, close,
}
use pricefeeder.System.{
  Phase, selecting, gathering, System, SystemStep, SystemReach, updated, params_changed,
  period_began, pair_asked, prices_sent, stop_taken, start, next,
}
use pricefeeder.System.Completes.{gather_rest}

module _ {F : Type 0} ⦃d : Float F⦄ where
  -- The loop of a provider is gone, and its source before it.
  abbrev pub IsGone : ProviderLoop F → Type 0
  IsGone p = (p.running ≡ false) × (p.exits ≡ source_closed ∷ done_closed ∷ [])

  -- The providers run as long as the feeder does.
  abbrev Alive : System F → Type 0
  Alive s = s.feeder.running ≡ true → All IsRunning s.providers

  IsRunning-provider_step :
      (before after : List (ProviderLoop F)) (p : ProviderLoop F) (batch : Dict (RawPrice F))
      → All IsRunning (before ++ (p ∷ after))
      → All IsRunning (before ++ (provider_step (price_updates batch) p ∷ after))
  unfolding provider_step
  IsRunning-provider_step [] after p batch (on, h) = (ground arith, h)
  IsRunning-provider_step (q ∷ before) after p batch (on, h) =
      (on, IsRunning-provider_step before after p batch h)

  step-Alive : {s t : System F} → SystemStep s t → Alive s → Alive t
  unfolding handle_params_update close
  step-Alive (updated before after p batch here on unique) h running =
      IsRunning-provider_step before after p batch (subst (All IsRunning) here (h running))
  step-Alive (params_changed params on at_select) h running = h running
  step-Alive (period_began vp on at_select) h running = h running
  step-Alive (pair_asked vp pair todo got asked price at_pair order found) h running = h running
  step-Alive (prices_sent vp got at_end) h running = h running
  step-Alive (stop_taken closing closed on at_select same unique done) h running =
      absurd (ground arith)

  reach-Alive : {s t : System F} → SystemReach s t → Alive s → Alive t
  reach-Alive start h = h
  reach-Alive (next reach step) h = step-Alive step (reach-Alive reach h)

  abbrev at_once : List (ProviderLoop F) → List (Closing F)
  at_once = map (λ p. (p, []))

  loops-at_once : (ps : List (ProviderLoop F)) → loops (at_once ps) ≡ ps
  loops-at_once [] = refl
  loops-at_once (p ∷ ps) = ap (λ qs. p ∷ qs) (loops-at_once ps)

  unique-at_once :
      (ps : List (ProviderLoop F)) → All (λ (c : Closing F). All NodupKeys c.1) (at_once ps)
  unique-at_once [] = tt
  unique-at_once (p ∷ ps) = (tt, unique-at_once ps)

  all_left-IsGone : (cs : List (Closing F)) → All IsGone (all_left cs)
  all_left-IsGone [] = tt
  all_left-IsGone (c ∷ cs) = ((refl, refl), all_left-IsGone cs)

  stop_now :
      {s t : System F}
      → SystemReach s t
      → t.phase ≡ selecting
      → t.feeder.running ≡ true
      → All IsRunning t.providers
      → (ps : List (ProviderLoop F)) × SystemReach s
          (record t { feeder = close t.feeder; providers = ps })
        × All IsGone ps
  stop_now {s} {t} reach at_select on running =
      let cs = at_once t.providers in
      let same = loops-at_once t.providers in
      let closed = close_all-eq-left cs (subst (All IsRunning) (sym same) running) in
      (
        all_left cs,
        next reach
            (stop_taken cs (all_left cs) on at_select same (unique-at_once t.providers) closed),
        all_left-IsGone cs,
      )

  phase-cases :
      (phase : Phase F)
      → (phase ≡ selecting)
        ⊎ ((vp : VotingPeriod) × (todo : List Pair) × (got : List (Price F)) × (phase
              ≡ gathering vp todo got))
  phase-cases selecting = inl refl
  phase-cases (gathering vp todo got) = inr (vp, todo, got, refl)

  -- What the feeder calls of a voting period that is under way before it stops.
  abbrev pub Finishes : Phase F → List (FeederCall F) → Type 0
  Finishes selecting calls = calls ≡ []
  Finishes (gathering vp todo got) calls =
      (prices : List (Price F)) × (map pair_of prices ≡ map pair_of got ++ todo)
      × (calls ≡ send_prices vp prices ∷ [])

  -- The feeder has stopped, after the calls of the voting period and those that close the parts.
  abbrev pub Closed : (before after : Feeder F) → List (FeederCall F) → Type 0
  Closed before after finishing =
      (after.running ≡ false)
      × (after.params ≡ before.params)
      × (after.calls
          ≡ before.calls
            ++ (finishing
                ++ (close_event_stream ∷ close_price_poster ∷ close_price_provider ∷ close_done
                    ∷ [])))

  close-Closed :
      (f : Feeder F) (finishing : List (FeederCall F))
      → Closed f (close (record f { calls = f.calls ++ finishing })) finishing
  unfolding close
  close-Closed f finishing = (refl, refl, append_assoc f.calls finishing _)

  close-Closed_now : (f : Feeder F) → Closed f (close f) []
  unfolding close
  close-Closed_now f = (refl, refl, refl)

  -- From a feeder that runs with all its providers, in every state that the parts reach while the
  -- feeder runs, the call `Feeder.Close` can return: if a voting period is under way, one post for it comes first,
  -- with one price for each of its pairs, in their order; then the feeder's loop closes the event stream,
  -- the poster, the provider and its `done` channel, in this order, and is gone, as are the loops of all the
  -- providers and their sources.
  pub close_returns :
      {s t : System F}
      → All IsRunning s.providers
      → SystemReach s t
      → t.feeder.running ≡ true
      → (u : System F) × SystemReach s u
        × All IsGone u.providers
        × (finishing : List (FeederCall F)) × Finishes t.phase finishing
        × Closed t.feeder u.feeder finishing
  close_returns {s} {t} all_on reach on =
      let running = reach-Alive reach (λ _. all_on) on in
      elim (phase-cases t.phase) [
        | inl at_select ↦
            let (ps, reached, gone) = stop_now reach at_select on running in
            (
              _,
              reached,
              gone,
              [],
              subst (λ ph. Finishes ph []) (sym at_select) refl,
              close-Closed_now t.feeder,
            )
        | inr (vp, todo, got, at_pair) ↦
            let (prices, posted, same) = gather_rest 0 vp todo got reach at_pair in
            let (ps, reached, gone) = stop_now posted refl on running in
            (
              _,
              reached,
              gone,
              send_prices vp prices ∷ [],
              subst (λ ph. Finishes ph (send_prices vp prices ∷ [])) (sym at_pair)
                  (prices, same, refl),
              close-Closed t.feeder _,
            )
      ]
