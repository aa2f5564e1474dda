-- ===== src/Tick/Fresh.antt =====
-- How long the provider of a tick source answers with a fetched price.
use mathlib.Core.Path.{subst}
use pricefeeder.Base.{
  ℕ, suc, ◌+◌, ◌-◌, ◌*◌, ◌^◌, ◌≤◌, ◌<◌, ◌≡◌, refl, ◌∙◌, ap, true, Bool-cases, inl, inr, Option,
  none, some, List, [], ◌∷◌, ◌++◌, map, Text, text_eq, text_eq_iff, Dict, lookup, insert,
  lookup-insert, NodupKeys, insert-NodupKeys, All, All-append, ltb, arith,
}
use pricefeeder.Float.{Float}
use pricefeeder.Types.{Symbol, Pair, RawPrice, price_timeout}
use pricefeeder.Provider.{price_updates, provider_run, new_provider, get_price}
use pricefeeder.Provider.Latest.{latest, answer, get_price-latest}
use pricefeeder.Tick.{Batch, stamp, update_tick}

module _ {F : Type 0} where
  stamp_absent :
      (clock : ℕ → ℕ) (prices : Dict F) (batch : Batch F) (s : Symbol)
      → lookup s prices ≡ none
      → lookup s (stamp clock prices batch) ≡ lookup s batch
  unfolding stamp lookup
  stamp_absent clock [] batch s h = refl
  stamp_absent clock ((symbol, price) ∷ prices) batch s h =
      let raw : RawPrice F = record { price = price; update_time = clock 0 } in
      let later = stamp_absent (λ i. clock (suc i)) prices (insert symbol raw batch) s in
      ground (arith, later, lookup-insert symbol s raw batch)

  stamp_present :
      (clock : ℕ → ℕ) (prices : Dict F) (batch : Batch F) (s : Symbol) (p : F)
      → NodupKeys prices
      → lookup s prices ≡ some p
      → (i : ℕ) × (lookup s (stamp clock prices batch)
          ≡ some (record { price = p; update_time = clock i }))
  unfolding stamp lookup
  stamp_present clock [] batch s p u h = absurd (ground arith)
  stamp_present clock ((symbol, price) ∷ prices) batch s p (fresh, u) h =
      let raw : RawPrice F = record { price = price; update_time = clock 0 } in
      elim (Bool-cases (text_eq symbol s)) [
        | inl here ↦
            let e : symbol ≡ s = (text_eq_iff symbol s).0 here in
            let absent : lookup s prices ≡ none = subst (λ k. lookup k prices ≡ none) e fresh in
            let kept =
              stamp_absent (λ i. clock (suc i)) prices (insert symbol raw batch) s absent in
            let same : some price ≡ some p = (rw here at h) in
            (0, kept ∙ lookup-insert symbol s raw batch ∙ rw here (cc same))
        | inr other ↦
            let (i, found) =
              stamp_present (λ i. clock (suc i)) prices (insert symbol raw batch) s p u
                (ground (arith, other, h)) in
            (suc i, found)
      ]

  stamp-NodupKeys :
      (clock : ℕ → ℕ) (prices : Dict F) (batch : Batch F)
      → NodupKeys batch
      → NodupKeys (stamp clock prices batch)
  unfolding stamp
  stamp-NodupKeys clock [] batch u = u
  stamp-NodupKeys clock ((symbol, price) ∷ prices) batch u =
      stamp-NodupKeys (λ i. clock (suc i)) prices _ (insert-NodupKeys symbol _ batch u)

  latest_last :
      (s : Symbol) (bs : List (Batch F)) (b : Batch F) (raw : RawPrice F)
      → lookup s b ≡ some raw
      → latest s (bs ++ (b ∷ [])) ≡ some raw
  latest_last s [] b raw h = ground (arith, h)
  latest_last s (c ∷ bs) b raw h = ground (arith, latest_last s bs b raw h)

young :
    (now time start delay : ℕ)
    → start ≤ time
    → delay < 7 * 10 ^ 9
    → now ≤ start + update_tick + delay
    → ltb (now - time) price_timeout ≡ true
young now time start delay after short soon = ground arith

module _ {F : Type 0} ⦃d : Float F⦄ where
  answer_last :
      (name : Text) (pair : Pair) (now : ℕ) (s : Symbol) (last : Symbol → Option (RawPrice F))
      (raw : RawPrice F)
      → last s ≡ some raw
      → answer name pair now (some s) last ≡ record {
        pair = pair;
        price = raw.price;
        source_name = name;
        valid = ltb (now - raw.update_time) price_timeout;
      }
  answer_last name pair now s last raw h = rw (h, answer) refl

  -- After any batches, the batch of a tick at which the clock read at least `start` and whose fetch had a
  -- price for the symbol of a pair: the provider answers with that price, and valid, up to the next tick
  -- and for a delay of less than seven seconds more.
  pub get_price_fresh :
      (name : Text) (mapping : Dict Symbol) (bs : List (Batch F)) (clock : ℕ → ℕ) (prices : Dict F)
      (pair : Pair) (s : Symbol) (p : F) (start delay now : ℕ)
      → All NodupKeys bs
      → NodupKeys prices
      → lookup pair mapping ≡ some s
      → lookup s prices ≡ some p
      → ((i : ℕ) → start ≤ clock i)
      → delay < 7 * 10 ^ 9
      → now ≤ start + update_tick + delay
      → get_price now
          (provider_run
            (map price_updates (bs ++ (stamp clock prices [] ∷ [])))
            (new_provider name mapping)).provider
          pair
        ≡ record { pair = pair; price = p; source_name = name; valid = true }
  unfolding lookup
  get_price_fresh name mapping bs clock prices pair s p start delay now u v mapped fetched after
        short soon =
      let batch = stamp clock prices [] in
      let (i, found) = stamp_present clock prices [] s p v fetched in
      let last = latest_last s bs batch _ found in
      get_price-latest name mapping (bs ++ (batch ∷ [])) now pair
        (All-append NodupKeys bs (batch ∷ []) u (stamp-NodupKeys clock prices [] tt, tt))
      ∙ ap (λ o. answer name pair now o (λ k. latest k (bs ++ (batch ∷ [])))) mapped
      ∙ answer_last name pair now s (λ k. latest k (bs ++ (batch ∷ []))) _ last
      ∙ ap (λ valid. record { pair = pair; price = p; source_name = name; valid = valid })
          (young now (clock i) start delay (after i) short soon)
