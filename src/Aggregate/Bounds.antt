-- ===== src/Aggregate/Bounds.antt =====
-- The consolidated price lies in every range that holds the valid prices.
use pricefeeder.Base.{
  ◌⊎◌, ℕ, zero, suc, ◌/◌, ◌%◌, ◌<◌, ◌≡◌, refl, Bool, true, false, List, [], ◌∷◌, map, All, length,
  ok, arith, inl, inr, Bool-cases, ◌==◌,
}
use pricefeeder.Float.{Float, ◌≼◌, IsModerate, IsIeee}
use pricefeeder.Types.{Pair, Price}
use pricefeeder.Aggregate.{
  at, at_before, sort_floats, midpoint, median, remove_outliers, compute_consolidated_price,
  aggregate_price, price_of, consolidate_cleaned, consolidated, ask_all, final_price, is_close,
}
use pricefeeder.Aggregate.Sort.{All-keep, All-sort_floats, length-sort_floats}

-- A read in range succeeds and keeps what holds of all elements.
pub at-All {ℓ κ} :
    {A : Type ℓ} (P : A → Type κ) (xs : List A) (i : ℕ)
    → All P xs
    → i < length xs
    → (x : A) × (at xs i ≡ ok x) × P x
unfolding at
at-All P [] i h lt = elim lt [ ]
at-All P (x ∷ xs) zero (px, h) lt = (x, refl, px)
at-All P (x ∷ xs) (suc i) (px, h) lt = at-All P xs i h (omega arith)

pub at_before-All {ℓ κ} :
    {A : Type ℓ} (P : A → Type κ) (xs : List A) (i : ℕ)
    → All P xs
    → 0 < i
    → i < length xs
    → (x : A) × (at_before xs i ≡ ok x) × P x
unfolding at_before
at_before-All P xs zero h pos lt = elim pos [ ]
at_before-All P xs (suc i) h pos lt = at-All P xs i h (omega arith)

module _ {F : Type 0} ⦃d : Float F⦄ {is_finite : F → Bool} (laws : IsIeee F is_finite) where
  open laws use {
    le_num, le_trans, le_total, add_mono, half_mono, half_double, finite_of_double, finite_add_num,
  }

  pub midpoint_ordered :
      (a b : F)
      → IsModerate is_finite a
      → IsModerate is_finite b
      → a ≼ b
      → (a ≼ midpoint a b) × (midpoint a b ≼ b) × (a ≼ midpoint b a) × (midpoint b a ≼ b)
  midpoint_ordered a b ma mb h =
      let (na, nb) = le_num a b h in
      let fa = finite_of_double a ma in
      let fb = finite_of_double b mb in
      let aa = finite_add_num a a fa fa in
      let ab = finite_add_num a b fa fb in
      let ba = finite_add_num b a fb fa in
      let bb = finite_add_num b b fb fb in
      (
        rw (half_double a ma) at (half_mono _ _ (add_mono a a a b na h aa ab)),
        rw (half_double b mb) at (half_mono _ _ (add_mono a b b b h nb ab bb)),
        rw (half_double a ma) at (half_mono _ _ (add_mono a b a a h na aa ba)),
        rw (half_double b mb) at (half_mono _ _ (add_mono b b a b nb h ba bb)),
      )

  module _ (lo hi : F) where
    -- In the range, and at most half of the largest number.
    abbrev pub Within : F → Type 0
    Within x = (lo ≼ x) × (x ≼ hi) × IsModerate is_finite x

    abbrev pub InRange : F → Type 0
    InRange x = (lo ≼ x) × (x ≼ hi)

    midpoint-InRange : (a b : F) → Within a → Within b → InRange (midpoint a b)
    midpoint-InRange a b (la, ha, ma) (lb, hb, mb) =
        elim (le_total a b (le_num a hi ha).0 (le_num b hi hb).0) [
          | inl h ↦
              let (low, high, _, _) = midpoint_ordered a b ma mb h in
              (le_trans _ _ _ la low, le_trans _ _ _ high hb)
          | inr h ↦
              let (_, _, low, high) = midpoint_ordered b a mb ma h in
              (le_trans _ _ _ lb low, le_trans _ _ _ high ha)
        ]

    -- The median of some prices is found, and lies in every range that holds them.
    median-InRange :
        (prices : List F)
        → 0 < length prices
        → All Within prices
        → (m : F) × (median prices ≡ ok m) × InRange m
    unfolding median
    median-InRange prices some_price h =
        let sorted = sort_floats prices in
        let mid = length prices / 2 in
        let count = length-sort_floats prices in
        let h' = All-sort_floats Within prices h in
        elim (Bool-cases (length prices % 2 == 1)) [
          | inl odd ↦
              let (m, found, within) = at-All Within sorted mid h' (omega arith) in
              (m, rw odd found, (within.0, within.1))
          | inr even ↦
              let positive : 0 < mid = ground arith in
              let (a, found_a, within_a) =
                at_before-All Within sorted mid h' positive (omega arith) in
              let (b, found_b, within_b) = at-All Within sorted mid h' (omega arith) in
              (midpoint a b, rw (even, found_a, found_b), midpoint-InRange a b within_a within_b)
        ]

    -- The prices that the aggregate starts from: those of the valid answers.
    abbrev pub ValidWithin : Pair → List (Pair → Price F) → Type 0
    ValidWithin pair [] = Unit
    ValidWithin pair (get_price ∷ providers) =
        (((get_price pair).valid ≡ false) ⊎ Within (get_price pair).price)
        × ValidWithin pair providers

    InRangeIfValid : Price F → Type 0
    InRangeIfValid r = r.valid ≡ true → InRange r.price

    cleaned-InRange :
        (cleaned : List F) (pair : Pair)
        → All Within cleaned
        → (r : Price F) × (consolidate_cleaned cleaned pair ≡ ok r) × InRangeIfValid r
    unfolding consolidate_cleaned InRangeIfValid
    cleaned-InRange [] pair h = (_, refl, λ e. cc)
    cleaned-InRange (x ∷ cleaned) pair h =
        let (m, found, within) = median-InRange (x ∷ cleaned) (omega arith) h in
        (consolidated pair m, rw found, λ e. within)

    All-remove_outliers : (xs : List F) → All Within xs → All Within (remove_outliers xs)
    unfolding remove_outliers
    All-remove_outliers xs h = All-keep Within (is_close _ _) xs h

    consolidated-InRange :
        (prices : List (Price F)) (pair : Pair)
        → All Within (map price_of prices)
        → (r : Price F) × (compute_consolidated_price prices pair ≡ ok r) × InRangeIfValid r
    unfolding compute_consolidated_price InRangeIfValid
    consolidated-InRange [] pair h = (_, refl, λ e. cc)
    consolidated-InRange (p ∷ []) pair ((low, high, _), _) = (p, refl, λ e. (low, high))
    consolidated-InRange (p ∷ q ∷ []) pair (wp, (wq, _)) =
        (_, refl, λ e. midpoint-InRange p.price q.price wp wq)
    consolidated-InRange (p ∷ q ∷ r ∷ prices) pair h =
        cleaned-InRange (remove_outliers (map price_of (p ∷ q ∷ r ∷ prices))) pair
          (All-remove_outliers (map price_of (p ∷ q ∷ r ∷ prices)) h)

    final-InRange :
        (pair : Pair) (prices : List (Price F))
        → All Within (map price_of prices)
        → (r : Price F) × (final_price pair prices ≡ ok r) × InRangeIfValid r
    unfolding final_price InRangeIfValid
    final-InRange pair [] h = (_, refl, λ e. cc)
    final-InRange pair (p ∷ prices) h = consolidated-InRange (p ∷ prices) pair h

    All-ask_all :
        (pair : Pair) (providers : List (Pair → Price F))
        → ValidWithin pair providers
        → All Within (map price_of (ask_all pair providers).0)
    unfolding ask_all price_of
    All-ask_all pair [] h = tt
    All-ask_all pair (get_price ∷ providers) (hp, h) = elim (Bool-cases (get_price pair).valid) [
      | inl e ↦ rw e (
        elim hp [ inl off ↦ absurd (ground arith) | inr within ↦ within ],
        All-ask_all pair providers h,
      )
      | inr e ↦ rw e (All-ask_all pair providers h)
    ]

    -- If every valid answer of the providers lies between `lo` and `hi`, and none is above half of the largest
    -- float64, then `GetPrice` of the aggregate does not panic, and the price that it returns is marked invalid or
    -- lies between `lo` and `hi`: for one answer, for two, and for more after the removal of the outliers.
    pub aggregate_price-InRange :
        (providers : List (Pair → Price F)) (pair : Pair)
        → ValidWithin pair providers
        → (r : Price F) × ((aggregate_price providers pair).0 ≡ ok r)
          × ((r.valid ≡ false) ⊎ InRange r.price)
    unfolding aggregate_price InRangeIfValid
    aggregate_price-InRange providers pair h =
        let (r, found, within) =
          final-InRange pair (ask_all pair providers).0 (All-ask_all pair providers h) in
        (r, found, elim (Bool-cases r.valid) [ inl e ↦ inr (within e) | inr e ↦ inl e ])
