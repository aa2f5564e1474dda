-- ===== src/Aggregate/Answers.antt =====
-- How the aggregate's price depends on the number of answers that count.
use pricefeeder.Base.{
  ℕ, ◌+◌, ◌/◌, ◌%◌, ◌<◌, ◌==◌, ◌≡◌, refl, true, false, Bool-cases, inl, inr, List, [], ◌∷◌, map,
  All, length, ok, >>=-eq-ok, arith, if◌then◌else◌,
}
use pricefeeder.Float.{Float}
use pricefeeder.Types.{Pair, Price}
use pricefeeder.Aggregate.{
  sort_floats, midpoint, median, ask_all, final_price, missing, consolidated,
  compute_consolidated_price, consolidate_cleaned, remove_outliers, price_of, aggregate_price,
}
use pricefeeder.Aggregate.Bounds.{at-All, at_before-All}
use pricefeeder.Aggregate.Sort.{length-sort_floats}

module _ {F : Type 0} where
  abbrev pub IsValid : Price F → Type 0
  IsValid r = r.valid ≡ true

  abbrev pub IsInvalid : Price F → Type 0
  IsInvalid r = r.valid ≡ false

  -- How many answers count.
  abbrev pub count_valid : List (Price F) → ℕ
  count_valid [] = 0
  count_valid (a ∷ answers) = (if a.valid then 1 else 0) + count_valid answers

  abbrev pub answers_of : Pair → List (Pair → Price F) → List (Price F)
  answers_of pair = map (λ get_price. get_price pair)

module _ {F : Type 0} ⦃d : Float F⦄ where
  asked_none :
      (pair : Pair) (providers : List (Pair → Price F))
      → All IsInvalid (answers_of pair providers)
      → (ask_all pair providers).0 ≡ []
  unfolding ask_all
  asked_none pair [] h = refl
  asked_none pair (p ∷ providers) (h, hs) = ground (arith, asked_none pair providers hs)

  -- The prices that the loop keeps: the valid ones.
  pub asked_count :
      (pair : Pair) (providers : List (Pair → Price F))
      → (length (ask_all pair providers).0 ≡ count_valid (answers_of pair providers))
        × All IsValid (ask_all pair providers).0
  unfolding ask_all
  asked_count pair [] = (refl, tt)
  asked_count pair (p ∷ providers) = ground (arith, asked_count pair providers)

  few-IsValid :
      (pair : Pair) (prices : List (Price F)) (r : Price F)
      → All IsValid prices
      → 0 < length prices
      → length prices < 3
      → final_price pair prices ≡ ok r
      → IsValid r
  unfolding final_price compute_consolidated_price consolidated
  few-IsValid pair [] r v some_count few e = absurd (ground arith)
  few-IsValid pair (p ∷ []) r (v, _) some_count few e = ground arith
  few-IsValid pair (p ∷ q ∷ []) r v some_count few e = ground arith
  few-IsValid pair (p ∷ q ∷ s ∷ prices) r v some_count few e = absurd (omega arith)

  -- No answer counts.
  pub aggregate_price_none :
      (providers : List (Pair → Price F)) (pair : Pair)
      → All IsInvalid (answers_of pair providers)
      → (aggregate_price providers pair).0 ≡ ok (missing (d.of_nat 0) pair)
  unfolding aggregate_price final_price
  aggregate_price_none providers pair h = rw (asked_none pair providers h) refl

  -- One or two answers count.
  pub aggregate_price_few :
      (providers : List (Pair → Price F)) (pair : Pair) (r : Price F)
      → 0 < count_valid (answers_of pair providers)
      → count_valid (answers_of pair providers) < 3
      → (aggregate_price providers pair).0 ≡ ok r
      → IsValid r
  unfolding aggregate_price
  aggregate_price_few providers pair r some_count few e =
      let (count, valid) = asked_count pair providers in
      few-IsValid pair (ask_all pair providers).0 r valid (omega arith) (omega arith) e

  abbrev Anything : F → Type 0
  Anything x = Unit

  All-Anything : (xs : List F) → All Anything xs
  All-Anything [] = tt
  All-Anything (x ∷ xs) = (tt, All-Anything xs)

  median_returns : (prices : List F) → 0 < length prices → (m : F) × (median prices ≡ ok m)
  unfolding median
  median_returns prices some_price =
      let sorted = sort_floats prices in
      let mid = length prices / 2 in
      let count = length-sort_floats prices in
      let all = All-Anything sorted in
      elim (Bool-cases (length prices % 2 == 1)) [
        | inl odd ↦
            let (m, found, _) = at-All Anything sorted mid all (omega arith) in
            (m, rw (odd, found) refl)
        | inr even ↦
            let positive : 0 < mid = ground arith in
            let (a, found_a, _) = at_before-All Anything sorted mid all positive (omega arith) in
            let (b, found_b, _) = at-All Anything sorted mid all (omega arith) in
            (midpoint a b, rw (even, found_a, found_b) refl)
      ]

  cleaned_returns :
      (cleaned : List F) (pair : Pair) → (r : Price F) × (consolidate_cleaned cleaned pair ≡ ok r)
  unfolding consolidate_cleaned
  cleaned_returns [] pair = (_, refl)
  cleaned_returns (x ∷ cleaned) pair =
      let (m, found) = median_returns (x ∷ cleaned) (omega arith) in
      (consolidated pair m, rw found refl)

  final_returns :
      (pair : Pair) (prices : List (Price F)) → (r : Price F) × (final_price pair prices ≡ ok r)
  unfolding final_price compute_consolidated_price
  final_returns pair [] = (_, refl)
  final_returns pair (p ∷ []) = (_, refl)
  final_returns pair (p ∷ q ∷ []) = (_, refl)
  final_returns pair (p ∷ q ∷ s ∷ prices) =
      cleaned_returns (remove_outliers (map price_of (p ∷ q ∷ s ∷ prices))) pair

  -- Whatever the answers and the arithmetic, the aggregate has a price.
  pub aggregate_price_returns :
      (providers : List (Pair → Price F)) (pair : Pair)
      → (r : Price F) × ((aggregate_price providers pair).0 ≡ ok r)
  unfolding aggregate_price
  aggregate_price_returns providers pair = final_returns pair (ask_all pair providers).0

  abbrev pub NamesPair : Pair → Price F → Type 0
  NamesPair pair r = r.pair ≡ pair

  asked-NamesPair :
      (pair : Pair) (providers : List (Pair → Price F))
      → All (NamesPair pair) (answers_of pair providers)
      → All (NamesPair pair) (ask_all pair providers).0
  unfolding ask_all
  asked-NamesPair pair [] h = tt
  asked-NamesPair pair (p ∷ providers) (h, hs) = ground (arith, asked-NamesPair pair providers hs)

  cleaned-NamesPair :
      (cleaned : List F) (pair : Pair) (r : Price F)
      → consolidate_cleaned cleaned pair ≡ ok r
      → NamesPair pair r
  unfolding consolidate_cleaned missing consolidated
  cleaned-NamesPair [] pair r e = ground arith
  cleaned-NamesPair (x ∷ cleaned) pair r e =
      let (m, found, made) = >>=-eq-ok (median (x ∷ cleaned)) _ e in ground arith

  final-NamesPair :
      (pair : Pair) (prices : List (Price F)) (r : Price F)
      → All (NamesPair pair) prices
      → final_price pair prices ≡ ok r
      → NamesPair pair r
  unfolding final_price compute_consolidated_price missing consolidated
  final-NamesPair pair [] r h e = ground arith
  final-NamesPair pair (p ∷ []) r (h, _) e = ground arith
  final-NamesPair pair (p ∷ q ∷ []) r h e = ground arith
  final-NamesPair pair (p ∷ q ∷ s ∷ prices) r h e = cleaned-NamesPair _ pair r e

  -- The price is for the pair that was asked for, if the answers are.
  pub aggregate_price-NamesPair :
      (providers : List (Pair → Price F)) (pair : Pair) (r : Price F)
      → All (NamesPair pair) (answers_of pair providers)
      → (aggregate_price providers pair).0 ≡ ok r
      → NamesPair pair r
  unfolding aggregate_price
  aggregate_price-NamesPair providers pair r h e =
      final-NamesPair pair (ask_all pair providers).0 r (asked-NamesPair pair providers h) e
