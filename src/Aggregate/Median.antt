-- ===== src/Aggregate/Median.antt =====
-- The median is an order statistic: at least half of the prices are at most the median, and at least
-- half are at least the median.
use pricefeeder.Base.{
  ℕ, zero, suc, ◌+◌, ◌-◌, ◌*◌, ◌/◌, ◌%◌, ◌<◌, ◌≤◌, ◌≡◌, Bool, List, [], ◌∷◌, All, length, ok, arith,
  inl, inr, Bool-cases, ◌==◌,
}
use pricefeeder.Float.{Float, ◌≼◌, IsNum, IsModerate, IsIeee}
use pricefeeder.Aggregate.{at, at_before, sort_floats, median, midpoint}
use pricefeeder.Aggregate.Sort.{All-sort_floats, length-sort_floats}
use pricefeeder.Aggregate.Bounds.{at-All, midpoint_ordered}
use pricefeeder.Aggregate.Sorted.{
  count_if, count_if-le, count_if-All, IsSorted, count_if-sort_floats, sort_floats-IsSorted,
}

module _ {F : Type 0} ⦃d : Float F⦄ {is_finite : F → Bool} (laws : IsIeee F is_finite) where
  open laws use {le_num, le_trans, le_total, lt-eq-not_le, is_nan-eq-not_le, finite_of_double}

  -- The element at a position of an ascending list has that many elements before it, and the rest
  -- behind it.
  sorted_counts :
      (l : List F) (i : ℕ) (z : F)
      → All IsNum l
      → IsSorted l
      → i < length l
      → at l i ≡ ok z
      → (i + 1 ≤ count_if (λ y. d.le y z) l) × (length l ≤ i + count_if (λ y. d.le z y) l)
  unfolding at
  sorted_counts [] i z n s lt e = elim lt [ ]
  sorted_counts (x ∷ xs) zero z (nx, n) (below, s) lt e =
      ground (arith, count_if-All (λ y. d.le x y) xs below)
  sorted_counts (x ∷ xs) (suc i) z (nx, n) (below, s) lt e =
      let (z', e', h) = at-All (λ y. x ≼ y) xs i below (omega arith) in
      ground (arith, sorted_counts xs i z n s (omega arith) e)

  -- In half of the elements, counted from either end.
  abbrev pub IsMedian : List F → F → Type 0
  IsMedian prices m =
      (length prices ≤ 2 * count_if (λ y. d.le y m) prices)
      × (length prices ≤ 2 * count_if (λ y. d.le m y) prices)

  IsMedian-odd :
      (prices : List F)
      → All IsNum prices
      → length prices % 2 ≡ 1
      → (m : F) × (at (sort_floats prices) (length prices / 2) ≡ ok m) × IsMedian prices m
  IsMedian-odd prices n odd =
      let sorted = sort_floats prices in
      let mid = length prices / 2 in
      let count = length-sort_floats prices in
      let ns = All-sort_floats IsNum prices n in
      let (m, found, _) = at-All IsNum sorted mid ns (omega arith) in
      let (low, high) =
        sorted_counts sorted mid m ns (sort_floats-IsSorted laws prices n) (omega arith) found in
      (
        m,
        found,
        (
          omega (arith, count_if-sort_floats (λ y. d.le y m) prices),
          omega (arith, count_if-sort_floats (λ y. d.le m y) prices),
        ),
      )

  IsModerate-IsNum : (x : F) → IsModerate is_finite x → IsNum x
  IsModerate-IsNum x m = laws.finite_num x (finite_of_double x m)

  All-IsNum : (xs : List F) → All (IsModerate is_finite) xs → All IsNum xs
  All-IsNum [] h = tt
  All-IsNum (x ∷ xs) (m, h) = (IsModerate-IsNum x m, All-IsNum xs h)

  -- What lies between two neighbours of the ascending list is a median.
  between-IsMedian :
      (prices : List F) (a b m : F) (mid : ℕ)
      → All IsNum prices
      → length prices ≡ 2 * suc mid
      → at (sort_floats prices) mid ≡ ok a
      → at (sort_floats prices) (suc mid) ≡ ok b
      → a ≼ m
      → m ≼ b
      → IsMedian prices m
  between-IsMedian prices a b m mid n even found_a found_b low high =
      let sorted = sort_floats prices in
      let count = length-sort_floats prices in
      let ns = All-sort_floats IsNum prices n in
      let s = sort_floats-IsSorted laws prices n in
      let (below_a, _) = sorted_counts sorted mid a ns s (omega arith) found_a in
      let (_, above_b) = sorted_counts sorted (suc mid) b ns s (omega arith) found_b in
      (
        omega (
          arith,
          count_if-sort_floats (λ y. d.le y a) prices,
          count_if-le (λ y. d.le y a) (λ y. d.le y m) prices (λ y h. le_trans y a m h low),
        ),
        omega (
          arith,
          count_if-sort_floats (λ y. d.le b y) prices,
          count_if-le (λ y. d.le b y) (λ y. d.le m y) prices (λ y h. le_trans m b y high h),
        ),
      )

  neighbours_le :
      (l : List F) (i : ℕ) (a b : F)
      → IsSorted l
      → suc i < length l
      → at l i ≡ ok a
      → at l (suc i) ≡ ok b
      → a ≼ b
  unfolding at
  neighbours_le [] i a b s lt ea eb = elim lt [ ]
  neighbours_le (x ∷ xs) zero a b (below, s) lt ea eb =
      let (z, ez, h) = at-All (λ y. x ≼ y) xs 0 below (omega arith) in ground arith
  neighbours_le (x ∷ xs) (suc i) a b (below, s) lt ea eb =
      neighbours_le xs i a b s (omega arith) ea eb

  IsMedian-even :
      (prices : List F) (k : ℕ)
      → All (IsModerate is_finite) prices
      → length prices ≡ 2 * suc k
      → (a : F) × (b : F) × (at (sort_floats prices) k ≡ ok a)
        × (at (sort_floats prices) (suc k) ≡ ok b)
        × IsMedian prices (midpoint a b)
  IsMedian-even prices k h even =
      let sorted = sort_floats prices in
      let count = length-sort_floats prices in
      let hs = All-sort_floats (IsModerate is_finite) prices h in
      let n = All-IsNum prices h in
      let (a, found_a, ma) = at-All (IsModerate is_finite) sorted k hs (omega arith) in
      let (b, found_b, mb) = at-All (IsModerate is_finite) sorted (suc k) hs (omega arith) in
      let ordered =
        neighbours_le sorted k a b (sort_floats-IsSorted laws prices n) (omega arith) found_a
          found_b in
      let (low, high, _, _) = midpoint_ordered laws a b ma mb ordered in
      (a, b, found_a, found_b, between-IsMedian prices a b _ k n even found_a found_b low high)

  -- Of one price or more, none above half of the largest float64, the median is found, and it is a
  -- median: at least half of the prices are at most it, and at least half are at least it.
  pub median-IsMedian :
      (prices : List F)
      → 0 < length prices
      → All (IsModerate is_finite) prices
      → (m : F) × (median prices ≡ ok m) × IsMedian prices m
  unfolding median at_before
  median-IsMedian prices some_price h = elim (Bool-cases (length prices % 2 == 1)) [
    | inl odd ↦
        let (m, found, half) = IsMedian-odd prices (All-IsNum prices h) (ground arith) in
        (m, rw odd found, half)
    | inr even ↦
        let k = length prices / 2 - 1 in
        let half : length prices ≡ 2 * suc k = ground arith in
        let split : length prices / 2 ≡ suc k = omega arith in
        let (a, b, found_a, found_b, is_median) = IsMedian-even prices k h half in
        (midpoint a b, rw (even, split, found_a, found_b), is_median)
  ]
