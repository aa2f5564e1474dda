-- ===== src/Aggregate/Order/Positive.antt =====
-- Positive prices are sorted to the same list whatever their order.
use mathlib.Core.Path.{ap₂, subst, subst₂}
use mathlib.Core.List.Permᴰ
use mathlib.Core.List.{Permᴰ}
use pricefeeder.Base.{
  Bool, ◌≡◌, refl, ◌∙◌, ap, sym, true, false, not, inl, inr, List, [], ◌∷◌, map, All, keep, arith,
  Bool-cases,
}
use pricefeeder.Float.{Float, IsIeee}
use pricefeeder.Aggregate.{sort_insert, sort_onto, sort_floats, less}
use pricefeeder.Aggregate.Sort.{All-sort_insert, All-sort_floats}
use pricefeeder.Aggregate.Sorted.{less_num}
use pricefeeder.Aggregate.Order.{cons_if, cons_if-perm, cons_if-swap}

module _ {ℓ ℓ'} {A : Type ℓ} {B : Type ℓ'} where
  pub map-perm : (f : A → B) {xs ys : List A} → Permᴰ xs ys → Permᴰ (map f xs) (map f ys)
  map-perm f Permᴰ.nil = Permᴰ.refl []
  map-perm f (Permᴰ.cons e p) = Permᴰ.cons (ap f e) (map-perm f p)
  map-perm f (Permᴰ.swap e g) = Permᴰ.swap (ap f e) (ap f g)
  map-perm f (Permᴰ.trans p q) = Permᴰ.trans (map-perm f p) (map-perm f q)

module _ {ℓ ℓ'} {A : Type ℓ} (P : A → Type ℓ') where
  pub All-perm : {xs ys : List A} → Permᴰ xs ys → All P xs → All P ys
  All-perm Permᴰ.nil h = h
  All-perm (Permᴰ.cons e p) (h, hs) = (subst P e h, All-perm p hs)
  All-perm (Permᴰ.swap e g) (h, (k, hs)) = (subst P g k, (subst P e h, hs))
  All-perm (Permᴰ.trans p q) h = All-perm q (All-perm p h)

module _ {ℓ} {A : Type ℓ} (test : A → Bool) where
  keep-cons : (x : A) (xs : List A) → cons_if (test x) x (keep test xs) ≡ keep test (x ∷ xs)
  unfolding keep
  keep-cons x xs = ground arith

  pub keep-perm : {xs ys : List A} → Permᴰ xs ys → Permᴰ (keep test xs) (keep test ys)
  keep-perm Permᴰ.nil = Permᴰ.refl (keep test [])
  keep-perm (Permᴰ.cons {a = x} {b = y} {l₁ = xs} {l₂ = ys} e p) =
      subst₂ Permᴰ (keep-cons x xs) (ap (λ z. cons_if (test z) z (keep test ys)) e ∙ keep-cons y ys)
        (cons_if-perm (test x) x (keep-perm p))
  keep-perm (Permᴰ.swap {a = x} {b = y} {a' = y'} {b' = x'} {l = l} e f) =
      subst₂ Permᴰ (ap (cons_if (test x) x) (keep-cons y l) ∙ keep-cons x (y ∷ l))
        (ap (cons_if (test y) y) (keep-cons x l)
          ∙ keep-cons y (x ∷ l)
          ∙ ap₂ (λ u v. keep test (u ∷ v ∷ l)) f e)
        (cons_if-swap (test x) (test y) x y (keep test l))
  keep-perm (Permᴰ.trans p q) = Permᴰ.trans (keep-perm p) (keep-perm q)

module _ {F : Type 0} ⦃d : Float F⦄ where
  abbrev pub IsPositive : F → Type 0
  IsPositive x = d.lt (d.of_nat 0) x ≡ true

module _ {F : Type 0} ⦃d : Float F⦄ {is_finite : F → Bool} (laws : IsIeee F is_finite) where
  open laws use {le_num, le_trans, le_total, lt_num, le_antisym}

  -- On positive numbers the test of the sort is a strict order.
  less_positive : (x y : F) → IsPositive x → IsPositive y → less x y ≡ not (d.le y x)
  less_positive x y px py = less_num laws x y (lt_num _ x px) (lt_num _ y py)

  less_connex :
      (x y : F) → IsPositive x → IsPositive y → less x y ≡ false → less y x ≡ false → x ≡ y
  less_connex x y px py h k =
      let x_y = less_positive x y px py in
      let y_x = less_positive y x py px in le_antisym x y px (ground arith) (ground arith)

  less_asym : (x y : F) → IsPositive x → IsPositive y → less x y ≡ true → less y x ≡ false
  less_asym x y px py h = ground (
    arith,
    less_positive x y px py,
    less_positive y x py px,
    le_total x y (lt_num _ x px) (lt_num _ y py),
  )

  -- Below an element that is not above z is below z too.
  less_trans :
      (x y z : F)
      → IsPositive x
      → IsPositive y
      → IsPositive z
      → less y x ≡ true
      → less x z ≡ true
      → less y z ≡ true
  less_trans x y z px py pz h k = ground (
    arith,
    less_positive y x py px,
    less_positive x z px pz,
    less_positive y z py pz,
    le_total x y (lt_num _ x px) (lt_num _ y py),
    le_trans z y x,
  )

  insert-swap :
      (x y : F) (zs : List F)
      → IsPositive x
      → IsPositive y
      → All IsPositive zs
      → sort_insert x (sort_insert y zs) ≡ sort_insert y (sort_insert x zs)
  unfolding sort_insert
  insert-swap x y [] px py h = elim (Bool-cases (less x y)) [
    | inl x_y ↦ ground (arith, less_asym x y px py x_y)
    | inr y_x ↦ elim (Bool-cases (less y x)) [
      | inl y_x' ↦ ground (arith)
      | inr same ↦ ground (arith, less_connex x y px py y_x same)
    ]
  ]
  insert-swap x y (z ∷ zs) px py (pz, h) =
      let rest = insert-swap x y zs px py h in
      let before_x = less_trans x y z px py pz in
      let before_y = less_trans y x z py px pz in
      elim (Bool-cases (less x y)) [
        | inl x_y ↦ ground (arith, less_asym x y px py x_y)
        | inr y_x ↦ elim (Bool-cases (less y x)) [
          | inl y_x' ↦ ground (arith)
          | inr same ↦
              let e = less_connex x y px py y_x same in
              ap₂ (λ u v. sort_insert u (sort_insert v (z ∷ zs))) e (sym e)
        ]
      ]

  sort_onto-swap :
      (xs : List F) (x : F) (sorted : List F)
      → IsPositive x
      → All IsPositive xs
      → All IsPositive sorted
      → sort_onto (sort_insert x sorted) xs ≡ sort_insert x (sort_onto sorted xs)
  unfolding sort_onto
  sort_onto-swap [] x sorted px ps h = refl
  sort_onto-swap (y ∷ xs) x sorted px (py, ps) h =
      ap (λ l. sort_onto l xs) (insert-swap y x sorted py px h)
      ∙ sort_onto-swap xs x (sort_insert y sorted) px ps (All-sort_insert IsPositive y sorted py h)

  sort_floats-cons :
      (x : F) (xs : List F)
      → IsPositive x
      → All IsPositive xs
      → sort_floats (x ∷ xs) ≡ sort_insert x (sort_floats xs)
  unfolding sort_floats sort_onto sort_insert
  sort_floats-cons x xs px ps = sort_onto-swap xs x [] px ps tt

  -- The prices of any order are sorted to the same list.
  pub sort_floats-perm :
      {xs ys : List F} → Permᴰ xs ys → All IsPositive xs → sort_floats xs ≡ sort_floats ys
  sort_floats-perm Permᴰ.nil h = refl
  sort_floats-perm (Permᴰ.cons {a = x} {b = y} {l₁ = xs} {l₂ = ys} e p) (px, h) =
      sort_floats-cons x xs px h
      ∙ ap₂ sort_insert e (sort_floats-perm p h)
      ∙ sym (sort_floats-cons y ys (subst IsPositive e px) (All-perm IsPositive p h))
  sort_floats-perm (Permᴰ.swap {a = x} {b = y} {a' = y'} {b' = x'} {l = l} e f) (px, (py, h)) =
      sort_floats-cons x (y ∷ l) px (py, h)
      ∙ ap (sort_insert x) (sort_floats-cons y l py h)
      ∙ insert-swap x y (sort_floats l) px py (All-sort_floats IsPositive l h)
      ∙ ap (sort_insert y) (sym (sort_floats-cons x l px h))
      ∙ sym (sort_floats-cons y (x ∷ l) py (px, h))
      ∙ ap₂ (λ u v. sort_floats (u ∷ v ∷ l)) f e
  sort_floats-perm (Permᴰ.trans p q) h =
      sort_floats-perm p h ∙ sort_floats-perm q (All-perm IsPositive p h)
