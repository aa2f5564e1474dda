-- ===== src/Aggregate/Order/Rounding.antt =====
-- The order in which the aggregate asks its providers matters through rounding only.
use mathlib.Core.Path.{subst}
use mathlib.Core.List.{Permᴰ}
use pricefeeder.Base.{
  Bool, ◌<◌, ◌≡◌, refl, ◌∙◌, ap, sym, ◌⊎◌, inl, inr, List, [], ◌∷◌, length, map, All, keep, ok,
  arith, Bool-cases, ltb, ◌>>=◌,
}
use pricefeeder.Float.{Float, IsIeee}
use pricefeeder.Types.{Pair, Price}
use pricefeeder.Aggregate.{
  ask_all, final_price, consolidate_cleaned, consolidated, compute_consolidated_price,
  aggregate_price, price_of, mean_and_std_dev, remove_outliers, is_close, median,
}
use pricefeeder.Aggregate.Sort.{All-keep}
use pricefeeder.Aggregate.Answers.{answers_of, count_valid}
use pricefeeder.Aggregate.Order.{length-perm, asked-perm, final-perm, aggregate_price-order}
use pricefeeder.Aggregate.Order.Positive.{map-perm, keep-perm, IsPositive, sort_floats-perm}

module _ {F : Type 0} ⦃d : Float F⦄ {is_finite : F → Bool} (laws : IsIeee F is_finite) where
  median-perm : {xs ys : List F} → Permᴰ xs ys → All IsPositive xs → median xs ≡ median ys
  unfolding median
  median-perm p h = rw (sort_floats-perm laws p h) (rw (length-perm p) refl)

  cleaned-perm :
      (pair : Pair) (xs ys : List F)
      → Permᴰ xs ys
      → All IsPositive xs
      → consolidate_cleaned xs pair ≡ consolidate_cleaned ys pair
  unfolding consolidate_cleaned
  cleaned-perm pair [] [] p h = refl
  cleaned-perm pair [] (y ∷ ys) p h = absurd (omega (arith, length-perm p))
  cleaned-perm pair (x ∷ xs) [] p h = absurd (omega (arith, length-perm p))
  cleaned-perm pair (x ∷ xs) (y ∷ ys) p h =
      ap (λ m. m >>= λ v. ok (consolidated pair v)) (median-perm p h)

  final-many :
      (pair : Pair) (ps : List (Price F))
      → 2 < length ps
      → final_price pair ps ≡ consolidate_cleaned (remove_outliers (map price_of ps)) pair
  unfolding final_price compute_consolidated_price
  final-many pair [] h = absurd (omega arith)
  final-many pair (p ∷ []) h = absurd (omega arith)
  final-many pair (p ∷ q ∷ []) h = absurd (omega arith)
  final-many pair (p ∷ q ∷ r ∷ ps) h = refl

  outliers-perm :
      {xs ys : List F}
      → Permᴰ xs ys
      → mean_and_std_dev xs ≡ mean_and_std_dev ys
      → Permᴰ (remove_outliers xs) (remove_outliers ys)
  unfolding remove_outliers
  outliers-perm {xs} {ys} p same =
      subst (λ m. Permᴰ (remove_outliers xs) (keep (is_close m.0 m.1) ys)) same
        (keep-perm (is_close (mean_and_std_dev xs).0 (mean_and_std_dev xs).1) p)

  outliers-IsPositive : (xs : List F) → All IsPositive xs → All IsPositive (remove_outliers xs)
  unfolding remove_outliers
  outliers-IsPositive xs h =
      All-keep IsPositive (is_close (mean_and_std_dev xs).0 (mean_and_std_dev xs).1) xs h

  -- The prices of the answers that count.
  abbrev pub asked_prices : Pair → List (Pair → Price F) → List F
  asked_prices pair ps = map price_of (ask_all pair ps).0

  final-any_order :
      ((x y : F) → d.add x y ≡ d.add y x)
      → (pair : Pair) {ps qs : List (Price F)} → Permᴰ ps qs
      → All IsPositive (map price_of ps)
      → mean_and_std_dev (map price_of ps) ≡ mean_and_std_dev (map price_of qs)
      → final_price pair ps ≡ final_price pair qs
  final-any_order add_comm pair {ps = ps} {qs = qs} p positive same =
      elim (Bool-cases (ltb (length ps) 3)) [
        | inl few ↦ final-perm add_comm pair p (ground arith)
        | inr many ↦
            let prices = map-perm price_of p in
            final-many pair ps (ground arith)
            ∙ cleaned-perm pair _ _ (outliers-perm prices same) (outliers-IsPositive _ positive)
            ∙ sym (final-many pair qs (ground (arith, length-perm p)))
      ]

  -- If the addition is commutative, the random order of the map matters through the rounding of the mean and
  -- of the standard deviation only: of two orders in which the providers are asked, either at most two answers
  -- count, or the prices that count are positive and both orders give one mean and one standard deviation, and
  -- then the price, its source's name and its validity are the same.
  pub aggregate_price-any_order :
      ((x y : F) → d.add x y ≡ d.add y x)
      → (pair : Pair) (ps qs : List (Pair → Price F)) → Permᴰ ps qs
      → (count_valid (answers_of pair ps) < 3)
        ⊎ (All IsPositive (asked_prices pair ps)
            × (mean_and_std_dev (asked_prices pair ps) ≡ mean_and_std_dev (asked_prices pair qs)))
      → (aggregate_price ps pair).0 ≡ (aggregate_price qs pair).0
  unfolding aggregate_price
  aggregate_price-any_order add_comm pair ps qs p (inl few) =
      aggregate_price-order add_comm pair ps qs p few
  aggregate_price-any_order add_comm pair ps qs p (inr (positive, same)) =
      final-any_order add_comm pair (asked-perm add_comm pair p) positive same
