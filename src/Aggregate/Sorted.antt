-- ===== src/Aggregate/Sorted.antt =====
-- Sorting reorders the prices and puts them in ascending order.
use pricefeeder.Base.{
  ℕ, ◌+◌, ◌≤◌, ◌≡◌, refl, Bool, true, not, List, [], ◌∷◌, All, length, arith, inl, inr, Bool-cases,
  if◌then◌else◌,
}
use pricefeeder.Float.{Float, ◌≼◌, IsNum, IsIeee}
use pricefeeder.Aggregate.{sort_insert, sort_onto, sort_floats, less}
use pricefeeder.Aggregate.Sort.{All-sort_insert}

-- How many elements pass a test.
abbrev pub count_if {ℓ} : {A : Type ℓ} → (A → Bool) → List A → ℕ
count_if p [] = 0
count_if p (x ∷ xs) = (if p x then 1 else 0) + count_if p xs

pub count_if-le {ℓ} :
    {A : Type ℓ} (p q : A → Bool) (xs : List A)
    → ((x : A) → p x ≡ true → q x ≡ true)
    → count_if p xs ≤ count_if q xs
count_if-le p q [] h = omega arith
count_if-le p q (x ∷ xs) h = ground (arith, h x, count_if-le p q xs h)

pub count_if-All {ℓ} :
    {A : Type ℓ} (p : A → Bool) (xs : List A) → All (λ x. p x ≡ true) xs → count_if p xs ≡ length xs
count_if-All p [] h = refl
count_if-All p (x ∷ xs) (px, h) = ground (arith, count_if-All p xs h)

module _ {F : Type 0} ⦃d : Float F⦄ where
  count_if-sort_insert :
      (p : F → Bool) (x : F) (ys : List F) → count_if p (sort_insert x ys) ≡ count_if p (x ∷ ys)
  unfolding sort_insert
  count_if-sort_insert p x [] = refl
  count_if-sort_insert p x (y ∷ ys) = ground (arith, count_if-sort_insert p x ys)

  count_if-sort_onto :
      (p : F → Bool) (sorted xs : List F)
      → count_if p (sort_onto sorted xs) ≡ count_if p sorted + count_if p xs
  unfolding sort_onto
  count_if-sort_onto p sorted [] = omega arith
  count_if-sort_onto p sorted (x ∷ xs) =
      omega (arith, count_if-sort_onto p (sort_insert x sorted) xs, count_if-sort_insert p x sorted)

  abbrev pub IsSorted : List F → Type 0
  IsSorted [] = Unit
  IsSorted (x ∷ xs) = All (λ y. x ≼ y) xs × IsSorted xs

  -- Sorting only reorders: every test passes as often as before.
  pub count_if-sort_floats :
      (p : F → Bool) (xs : List F) → count_if p (sort_floats xs) ≡ count_if p xs
  unfolding sort_floats
  count_if-sort_floats p xs = omega (arith, count_if-sort_onto p [] xs)

module _ {F : Type 0} ⦃d : Float F⦄ {is_finite : F → Bool} (laws : IsIeee F is_finite) where
  open laws use {le_num, le_trans, le_total, lt-eq-not_le, is_nan-eq-not_le, finite_of_double}

  pub less_num : (x y : F) → IsNum x → IsNum y → less x y ≡ not (d.le y x)
  unfolding less
  less_num x y nx ny = ground (arith, lt-eq-not_le x y nx ny, is_nan-eq-not_le x)

  All-trans : (x y : F) (ys : List F) → x ≼ y → All (λ z. y ≼ z) ys → All (λ z. x ≼ z) ys
  All-trans x y [] h k = tt
  All-trans x y (z ∷ ys) h (p, k) = (le_trans x y z h p, All-trans x y ys h k)

  sort_insert-IsSorted :
      (x : F) (ys : List F) → IsNum x → All IsNum ys → IsSorted ys → IsSorted (sort_insert x ys)
  unfolding sort_insert
  sort_insert-IsSorted x [] nx ns s = (tt, tt)
  sort_insert-IsSorted x (y ∷ ys) nx (ny, ns) (below, s) = elim (Bool-cases (less x y)) [
    | inl e ↦
        let h : x ≼ y = ground (arith, less_num x y nx ny, le_total x y nx ny) in
        rw e ((h, All-trans x y ys h below), (below, s))
    | inr e ↦
        let h : y ≼ x = ground (arith, less_num x y nx ny) in
        rw e (All-sort_insert (λ z. y ≼ z) x ys h below, sort_insert-IsSorted x ys nx ns s)
  ]

  sort_onto-IsSorted :
      (sorted xs : List F)
      → All IsNum sorted
      → IsSorted sorted
      → All IsNum xs
      → IsSorted (sort_onto sorted xs)
  unfolding sort_onto
  sort_onto-IsSorted sorted [] ns s n = s
  sort_onto-IsSorted sorted (x ∷ xs) ns s (nx, n) =
      sort_onto-IsSorted (sort_insert x sorted) xs (All-sort_insert IsNum x sorted nx ns)
        (sort_insert-IsSorted x sorted nx ns s) n

  -- Of numbers, `sort.Float64s` makes an ascending list.
  pub sort_floats-IsSorted : (xs : List F) → All IsNum xs → IsSorted (sort_floats xs)
  unfolding sort_floats
  sort_floats-IsSorted xs n = sort_onto-IsSorted [] xs tt tt n
