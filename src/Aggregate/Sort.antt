-- ===== src/Aggregate/Sort.antt =====
-- What sorting and filtering keep: every property of the elements.
use pricefeeder.Base.{
  suc, ◌+◌, ◌≡◌, refl, Bool, List, [], ◌∷◌, All, length, keep, arith, inl, inr, Bool-cases,
}
use pricefeeder.Float.{Float}
use pricefeeder.Aggregate.{sort_insert, sort_onto, sort_floats, less}

pub All-keep {ℓ κ} :
    {A : Type ℓ} (P : A → Type κ) (p : A → Bool) (xs : List A) → All P xs → All P (keep p xs)
unfolding keep
All-keep P p [] h = tt
All-keep P p (x ∷ xs) (px, h) = elim (Bool-cases (p x)) [
  | inl e ↦ rw (e, All) (px, All-keep P p xs h)
  | inr e ↦ rw (e, All) (All-keep P p xs h)
]

module _ {κ} {F : Type 0} ⦃d : Float F⦄ (P : F → Type κ) where
  pub All-sort_insert : (x : F) (ys : List F) → P x → All P ys → All P (sort_insert x ys)
  unfolding sort_insert
  All-sort_insert x [] px h = (px, tt)
  All-sort_insert x (y ∷ ys) px (py, h) = elim (Bool-cases (less x y)) [
    | inl e ↦ rw e (px, (py, h))
    | inr e ↦ rw e (py, All-sort_insert x ys px h)
  ]

  All-sort_onto : (sorted xs : List F) → All P sorted → All P xs → All P (sort_onto sorted xs)
  unfolding sort_onto
  All-sort_onto sorted [] hs h = hs
  All-sort_onto sorted (x ∷ xs) hs (px, h) =
      All-sort_onto (sort_insert x sorted) xs (All-sort_insert x sorted px hs) h

  pub All-sort_floats : (xs : List F) → All P xs → All P (sort_floats xs)
  unfolding sort_floats
  All-sort_floats xs h = All-sort_onto [] xs tt h

module _ {F : Type 0} ⦃d : Float F⦄ where
  length-sort_insert : (x : F) (ys : List F) → length (sort_insert x ys) ≡ suc (length ys)
  unfolding sort_insert
  length-sort_insert x [] = refl
  length-sort_insert x (y ∷ ys) = ground (arith, length-sort_insert x ys)

  length-sort_onto : (sorted xs : List F) → length (sort_onto sorted xs) ≡ length sorted + length xs
  unfolding sort_onto
  length-sort_onto sorted [] = omega arith
  length-sort_onto sorted (x ∷ xs) =
      omega (arith, length-sort_onto (sort_insert x sorted) xs, length-sort_insert x sorted)

  pub length-sort_floats : (xs : List F) → length (sort_floats xs) ≡ length xs
  unfolding sort_floats
  length-sort_floats xs = omega (arith, length-sort_onto [] xs)
