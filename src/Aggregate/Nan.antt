-- ===== src/Aggregate/Nan.antt =====
-- NaN among the valid prices: `strconv.ParseFloat` accepts the text "NaN", so a source can send it.
use pricefeeder.Base.{
  ◌≤◌, ◌≡◌, refl, Bool, true, false, ◌||◌, List, [], ◌∷◌, map, length, keep, ok, arith, ap,
}
use pricefeeder.Float.{Float, IsIeee}
use pricefeeder.Types.{Pair, Price}
use pricefeeder.Aggregate.{
  sum_loop, mean_and_std_dev, is_close, remove_outliers, compute_consolidated_price,
  consolidate_cleaned, missing, price_of, ask_all, aggregate_price, final_price,
}

keep-none {ℓ} : {A : Type ℓ} (p : A → Bool) (xs : List A) → ((x : A) → p x ≡ false) → keep p xs ≡ []
unfolding keep
keep-none p [] h = refl
keep-none p (x ∷ xs) h = ground (arith, h x, keep-none p xs h)

module _ {F : Type 0} ⦃d : Float F⦄ where
  unfoldable pub any_nan : List F → Bool
  any_nan [] = false
  any_nan (x ∷ xs) = d.is_nan x || any_nan xs

module _ {F : Type 0} ⦃d : Float F⦄ {is_finite : F → Bool} (laws : IsIeee F is_finite) where
  open laws use {le_num, is_nan-eq-not_le, add_nan, add_nan_right, div_nan, sub_nan_right, abs_nan}

  le_nan : (x y : F) → d.is_nan x ≡ true → d.le x y ≡ false
  le_nan x y h = ground (arith, le_num x y, is_nan-eq-not_le x)

  sum_loop_from_nan :
      (sum : F) (xs : List F) → d.is_nan sum ≡ true → d.is_nan (sum_loop sum xs) ≡ true
  unfolding sum_loop
  sum_loop_from_nan sum [] h = h
  sum_loop_from_nan sum (x ∷ xs) h = sum_loop_from_nan (d.add sum x) xs (add_nan sum x h)

  sum_loop_nan : (sum : F) (xs : List F) → any_nan xs ≡ true → d.is_nan (sum_loop sum xs) ≡ true
  unfolding sum_loop any_nan
  sum_loop_nan sum [] h = ground arith
  sum_loop_nan sum (x ∷ xs) h = ground (
    arith,
    add_nan_right sum x,
    sum_loop_from_nan (d.add sum x) xs,
    sum_loop_nan (d.add sum x) xs,
  )

  -- With a NaN the mean is NaN, and no price is close to it.
  remove_outliers_nan : (xs : List F) → any_nan xs ≡ true → remove_outliers xs ≡ []
  unfolding remove_outliers mean_and_std_dev
  remove_outliers_nan xs h = keep-none (is_close _ _) xs (λ x.
      le_nan _ _ (abs_nan _ (sub_nan_right x _ (div_nan _ _ (sum_loop_nan (d.of_nat 0) xs h)))))

  consolidated_nan :
      (prices : List (Price F)) (pair : Pair)
      → 3 ≤ length prices
      → any_nan (map price_of prices) ≡ true
      → compute_consolidated_price prices pair ≡ ok (missing (d.neg (d.of_nat 1)) pair)
  unfolding compute_consolidated_price
  consolidated_nan [] pair h n = absurd (omega arith)
  consolidated_nan (p ∷ []) pair h n = absurd (omega arith)
  consolidated_nan (p ∷ q ∷ []) pair h n = absurd (omega arith)
  consolidated_nan (p ∷ q ∷ r ∷ prices) pair h n =
      ap (λ cleaned. consolidate_cleaned cleaned pair)
        (remove_outliers_nan (map price_of (p ∷ q ∷ r ∷ prices)) n)

  -- One NaN among three or more valid answers makes the aggregate abstain on the pair, whatever the
  -- other answers are: no answer survives the removal of the outliers.
  pub aggregate_price_nan :
      (providers : List (Pair → Price F)) (pair : Pair)
      → 3 ≤ length (ask_all pair providers).0
      → any_nan (map price_of (ask_all pair providers).0) ≡ true
      → (aggregate_price providers pair).0 ≡ ok (missing (d.neg (d.of_nat 1)) pair)
  unfolding aggregate_price
  aggregate_price_nan providers pair h n = final_nan (ask_all pair providers).0 h n
    where
      final_nan :
          (prices : List (Price F))
          → 3 ≤ length prices
          → any_nan (map price_of prices) ≡ true
          → final_price pair prices ≡ ok (missing (d.neg (d.of_nat 1)) pair)
      final_nan [] h n = absurd (omega arith)
      final_nan (p ∷ prices) h n = consolidated_nan (p ∷ prices) pair h n
