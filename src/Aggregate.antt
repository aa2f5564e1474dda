-- ===== src/Aggregate.antt =====
-- feeder/priceprovider/aggregateprovider.go: the prices of several providers are consolidated. The
-- providers are a map with a random order of iteration: here they are a list, the order of one call.
pub mod Sort
pub mod Bounds
pub mod Nan
pub mod Sorted
pub mod Median
pub mod Closing
pub mod Order
pub mod Answers
use pricefeeder.Base.{
  ℕ, zero, suc, ◌-◌, ◌/◌, ◌%◌, Bool, true, false, not, ◌&&◌, ◌||◌, List, [], ◌∷◌, ◌++◌, map, Text,
  text, length, keep, ◌==◌, if◌then◌else◌, Result, ok, panic, ◌>>=◌,
}
use pricefeeder.Float.{Float}
use pricefeeder.Types.{Pair, Price}

-- `xs[i]` and `xs[i-1]`, which panic out of range.
module _ {ℓ} {A : Type ℓ} where
  unfoldable pub at : List A → ℕ → Result A
  at [] i = panic
  at (x ∷ xs) zero = ok x
  at (x ∷ xs) (suc i) = at xs i

  unfoldable pub at_before : List A → ℕ → Result A
  unfolding at
  at_before xs zero = panic
  at_before xs (suc i) = at xs i

module _ {F : Type 0} where
  unfoldable pub price_of : Price F → F
  price_of p = p.price

-- An increment of the counter `aggregate_prices_total`, by its labels.
pub record AggregateCount : Type 0 where
  pub pair : Pair
  pub source : Text
  pub success : Bool

module _ {F : Type 0} ⦃d : Float F⦄ where
  sum_loop : F → List F → F
  sum_loop sum [] = sum
  sum_loop sum (p ∷ prices) = sum_loop (d.add sum p) prices

  variance_loop : F → F → List F → F
  variance_loop mean variance [] = variance
  variance_loop mean variance (p ∷ prices) =
      let diff = d.sub p mean in variance_loop mean (d.add variance (d.mul diff diff)) prices

  unfoldable pub mean_and_std_dev : List F → F × F
  unfolding sum_loop variance_loop
  mean_and_std_dev prices =
      let mean = d.div (sum_loop (d.of_nat 0) prices) (d.of_nat (length prices)) in
      let variance =
        d.div (variance_loop mean (d.of_nat 0) prices) (d.of_nat (length prices - 1)) in
      (mean, d.sqrt variance)

  -- The test of `removeOutliers`.
  abbrev pub is_close : F → F → F → Bool
  is_close mean stddev p = d.le (d.abs (d.sub p mean)) (d.mul (d.of_nat 1) stddev)

  unfoldable pub remove_outliers : List F → List F
  remove_outliers prices =
      let (mean, stddev) = mean_and_std_dev prices in keep (is_close mean stddev) prices

  -- `sort.Float64s`: ascending, NaN before the numbers. It sorts up to twelve values by insertion.
  pub less : F → F → Bool
  less x y = d.lt x y || d.is_nan x && not (d.is_nan y)

  pub sort_insert : F → List F → List F
  sort_insert x [] = x ∷ []
  sort_insert x (y ∷ ys) = if less x y then x ∷ y ∷ ys else y ∷ sort_insert x ys

  sort_onto : List F → List F → List F
  sort_onto sorted [] = sorted
  sort_onto sorted (x ∷ xs) = sort_onto (sort_insert x sorted) xs

  unfoldable pub sort_floats : List F → List F
  unfolding sort_onto sort_insert less
  sort_floats prices = sort_onto [] prices

  abbrev pub midpoint : F → F → F
  midpoint a b = d.div (d.add a b) (d.of_nat 2)

  unfoldable pub median : List F → Result F
  unfolding at_before
  median prices =
      let sorted = sort_floats prices in
      let mid = length prices / 2 in
      if length prices % 2 == 1
      then at sorted mid
      else (at_before sorted mid >>= λ a. at sorted mid >>= λ b. ok (midpoint a b))

  pub missing : F → Pair → Price F
  missing value pair = record {
    pair = pair;
    price = value;
    source_name = text "missing";
    valid = false;
  }

  pub consolidated : Pair → F → Price F
  consolidated pair value = record {
    pair = pair;
    price = value;
    source_name = text "consolidated";
    valid = true;
  }

  -- The end of the branch of three prices or more: the prices without the outliers.
  consolidate_cleaned : List F → Pair → Result (Price F)
  unfolding missing consolidated
  consolidate_cleaned [] pair = ok (missing (d.neg (d.of_nat 1)) pair)
  consolidate_cleaned (x ∷ cleaned) pair = median (x ∷ cleaned) >>= λ m. ok (consolidated pair m)

  unfoldable pub compute_consolidated_price : List (Price F) → Pair → Result (Price F)
  unfolding missing consolidated consolidate_cleaned price_of
  compute_consolidated_price [] pair = ok (missing (d.neg (d.of_nat 1)) pair)
  compute_consolidated_price (p ∷ []) pair = ok p
  compute_consolidated_price (p ∷ q ∷ []) pair = ok (consolidated pair (midpoint p.price q.price))
  compute_consolidated_price (p ∷ q ∷ r ∷ prices) pair =
      consolidate_cleaned (remove_outliers (map price_of (p ∷ q ∷ r ∷ prices))) pair

  -- The loop over the providers: the valid prices, and an increment for each.
  unfoldable pub ask_all : Pair → List (Pair → Price F) → List (Price F) × List AggregateCount
  ask_all pair [] = ([], [])
  ask_all pair (get_price ∷ providers) =
      let price = get_price pair in
      let (prices, counts) = ask_all pair providers in
      let count : AggregateCount = record {
        pair = pair;
        source = price.source_name;
        success = true;
      } in
      if price.valid then (price ∷ prices, count ∷ counts) else (prices, counts)

  -- What `GetPrice` returns after the loop, and the increments by then.
  final_price : Pair → List (Price F) → Result (Price F)
  unfolding missing
  final_price pair [] = ok (missing (d.of_nat 0) pair)
  final_price pair (p ∷ prices) = compute_consolidated_price (p ∷ prices) pair

  final_counts : Pair → List (Price F) → List AggregateCount → List AggregateCount
  final_counts pair [] counts =
      counts ++ record { pair = pair; source = text "missing"; success = false } ∷ []
  final_counts pair (p ∷ prices) counts = counts

  unfoldable pub aggregate_price :
      List (Pair → Price F) → Pair → Result (Price F) × List AggregateCount
  unfolding ask_all final_price final_counts
  aggregate_price providers pair =
      let (prices, counts) = ask_all pair providers in
      (final_price pair prices, final_counts pair prices counts)
