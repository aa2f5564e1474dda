-- ===== src/Provider/Shutdown.antt =====
-- The end of a provider's loop.
use pricefeeder.Base.{
  ◌≡◌, refl, ◌∙◌, ap, List, [], ◌∷◌, ◌++◌, true, false, All, arith, map, Dict, ok, panic,
  ok-injective, sym, Bool-cases, inl, inr,
}
use pricefeeder.Types.{RawPrice}
use pricefeeder.Provider.{
  ProviderEvent, price_updates, stop_signal, ProviderLoop, provider_step, provider_run,
  source_closed, done_closed, close,
}

module _ {F : Type 0} where
  abbrev pub IsUpdate : ProviderEvent F → Type 0
  IsUpdate stop_signal = ⊥
  IsUpdate (price_updates b) = Unit

  step_when_stopped :
      (e : ProviderEvent F) (l : ProviderLoop F) → l.running ≡ false → provider_step e l ≡ l
  unfolding provider_step
  step_when_stopped stop_signal l off = ground arith
  step_when_stopped (price_updates b) l off = ground arith

  stopped_stays :
      (events : List (ProviderEvent F)) (l : ProviderLoop F)
      → l.running ≡ false
      → provider_run events l ≡ l
  unfolding provider_run
  stopped_stays [] l off = refl
  stopped_stays (e ∷ events) l off =
      ap (provider_run events) (step_when_stopped e l off) ∙ stopped_stays events l off

  -- The loop ends at the first stop signal: it then closes its source and afterwards its `done`
  -- channel, once each, and no later event changes the prices or anything else of the loop.
  pub provider_run-stopped :
      (before after : List (ProviderEvent F)) (l : ProviderLoop F)
      → l.running ≡ true
      → All IsUpdate before
      → provider_run (before ++ (stop_signal ∷ after)) l ≡ record (provider_run before l) {
        running = false;
        exits = source_closed ∷ done_closed ∷ [];
      }
  unfolding provider_run provider_step
  provider_run-stopped [] after l on u =
      stopped_stays after (provider_step stop_signal l) (ground arith) ∙ ground arith
  provider_run-stopped (stop_signal ∷ before) after l on (u, us) = absurd u
  provider_run-stopped (price_updates b ∷ before) after l on (u, us) =
      provider_run-stopped before after (provider_step (price_updates b) l) (ground arith) us

  IsUpdate-updates : (late : List (Dict (RawPrice F))) → All IsUpdate (map price_updates late)
  IsUpdate-updates [] = tt
  IsUpdate-updates (b ∷ late) = (tt, IsUpdate-updates late)

  -- The provider that `Close` leaves behind.
  abbrev pub left : List (Dict (RawPrice F)) → ProviderLoop F → ProviderLoop F
  left late l = record (provider_run (map price_updates late) l) {
    running = false;
    exits = source_closed ∷ done_closed ∷ [];
  }

  pub close-eq-left :
      (late : List (Dict (RawPrice F))) (l : ProviderLoop F)
      → l.running ≡ true
      → close late l ≡ ok (left late l)
  unfolding close
  close-eq-left late l on =
      ground (arith, provider_run-stopped (map price_updates late) [] l on (IsUpdate-updates late))

  pub close_again :
      (late : List (Dict (RawPrice F))) (l : ProviderLoop F)
      → l.running ≡ false
      → close late l ≡ panic
  unfolding close
  close_again late l off = ground arith

  pub close-inverts :
      (late : List (Dict (RawPrice F))) (l closed : ProviderLoop F)
      → close late l ≡ ok closed
      → closed ≡ left late l
  close-inverts late l closed e = elim (Bool-cases l.running) [
    | inl on ↦ ok-injective (sym e ∙ close-eq-left late l on)
    | inr off ↦ absurd (ground (arith, close_again late l off))
  ]

  pub close-running :
      (late : List (Dict (RawPrice F))) (l closed : ProviderLoop F)
      → close late l ≡ ok closed
      → l.running ≡ true
  close-running late l closed e = elim (Bool-cases l.running) [
    | inl on ↦ on
    | inr off ↦ absurd (ground (arith, close_again late l off))
  ]
