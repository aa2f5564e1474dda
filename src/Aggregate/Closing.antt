-- ===== src/Aggregate/Closing.antt =====
-- `Close` of feeder/priceprovider/aggregateprovider.go, which closes the providers one after the
-- other.
use mathlib.Core.Path.{ap₂}
use mathlib.Core.List.{head-eq_of_cons-eq}
use pricefeeder.Base.{
  ◌≡◌, ◌≢◌, refl, ◌∙◌, sym, ap, arith, ok-injective, >>=-eq-ok, true, false, List, [], ◌∷◌, map,
  All, Dict, Result, ok, panic, ◌>>=◌,
}
use pricefeeder.Types.{RawPrice}
use pricefeeder.Provider
use pricefeeder.Provider.{ProviderLoop}
use pricefeeder.Provider.Shutdown.{left, close-eq-left, close_again, close-inverts, close-running}

-- A provider with the updates that its loop still takes while it is closed.
abbrev pub Closing : Type 0 → Type 0
Closing F = ProviderLoop F × List (Dict (RawPrice F))

module _ {F : Type 0} where
  unfoldable pub close_all : List (Closing F) → Result (List (ProviderLoop F))
  close_all [] = ok []
  close_all ((p, late) ∷ providers) =
      Provider.close late p >>= λ q. close_all providers >>= λ qs. ok (q ∷ qs)

  abbrev pub IsRunning : ProviderLoop F → Type 0
  IsRunning p = p.running ≡ true

  abbrev pub loops : List (Closing F) → List (ProviderLoop F)
  loops = map (λ c. c.0)

  abbrev pub all_left : List (Closing F) → List (ProviderLoop F)
  all_left = map (λ c. left c.1 c.0)

  pub close_all-eq-left :
      (cs : List (Closing F)) → All IsRunning (loops cs) → close_all cs ≡ ok (all_left cs)
  unfolding close_all
  close_all-eq-left [] on = refl
  close_all-eq-left ((p, late) ∷ cs) (on_p, on) =
      rw (close-eq-left late p on_p, close_all-eq-left cs on) refl

  -- Only running providers can be closed.
  pub close_all-inverts :
      (cs : List (Closing F)) (closed : List (ProviderLoop F))
      → close_all cs ≡ ok closed
      → All IsRunning (loops cs) × (closed ≡ all_left cs)
  unfolding close_all
  close_all-inverts [] closed e = (tt, sym (ok-injective e))
  close_all-inverts ((p, late) ∷ cs) closed e =
      let (q, closed_q, e₁) = >>=-eq-ok (Provider.close late p) _ e in
      let (qs, closed_qs, e₂) = >>=-eq-ok (close_all cs) _ e₁ in
      let (on, same) = close_all-inverts cs qs closed_qs in
      (
        (close-running late p q closed_q, on),
        sym (ok-injective e₂) ∙ ap₂ ◌∷◌ (close-inverts late p q closed_q) same,
      )

  close_all_gone :
      (again cs : List (Closing F))
      → loops again ≡ all_left cs
      → again ≢ []
      → close_all again ≡ panic
  unfolding close_all
  close_all_gone [] cs same some_left = absurd (some_left refl)
  close_all_gone ((p, late) ∷ again) [] same some_left = absurd (ground arith)
  close_all_gone ((p, late) ∷ again) ((q, seen) ∷ cs) same some_left =
      let off : p.running ≡ false =
        ap (λ (r : ProviderLoop F). r.running) (head-eq_of_cons-eq same) in
      rw (close_again late p off) refl

  -- `Close` of running providers returns: the loop of each is gone after the updates that it still
  -- took, each has closed its source and then its `done` channel once, and the prices stay. A
  -- second `Close` panics, unless there are no providers.
  pub close_all_once :
      (cs : List (Closing F))
      → All IsRunning (loops cs)
      → (close_all cs ≡ ok (all_left cs))
        × ((again : List (Closing F))
            → loops again ≡ all_left cs
            → again ≢ []
            → close_all again ≡ panic)
  close_all_once cs on = (close_all-eq-left cs on, λ again. close_all_gone again cs)
