-- ===== src/Aggregate/Order.antt =====
-- How far the order in which the aggregate asks its providers matters.
pub mod Positive
pub mod Rounding
use mathlib.Core.Path.{ap₂, subst₂}
use mathlib.Core.List.Permᴰ
use mathlib.Core.List.{Permᴰ}
use pricefeeder.Base.{
  Bool, suc, ◌<◌, ◌≡◌, refl, ◌∙◌, ap, sym, true, false, List, [], ◌∷◌, length, ok, arith,
}
use pricefeeder.Float.{Float}
use pricefeeder.Types.{Pair, Price}
use pricefeeder.Aggregate.{
  ask_all, final_price, compute_consolidated_price, consolidated, aggregate_price,
}
use pricefeeder.Aggregate.Answers.{answers_of, count_valid, asked_count}

module _ {ℓ} {A : Type ℓ} where
  length-perm : {xs ys : List A} → Permᴰ xs ys → length xs ≡ length ys
  length-perm Permᴰ.nil = refl
  length-perm (Permᴰ.cons e p) = ap suc (length-perm p)
  length-perm (Permᴰ.swap e f) = refl
  length-perm (Permᴰ.trans p q) = length-perm p ∙ length-perm q

  -- Fewer than two elements have one order.
  perm_of_one : {xs ys : List A} → Permᴰ xs ys → length xs < 2 → xs ≡ ys
  perm_of_one Permᴰ.nil h = refl
  perm_of_one (Permᴰ.cons e p) h = ap₂ ◌∷◌ e (perm_of_one p (omega arith))
  perm_of_one (Permᴰ.swap e f) h = absurd (omega arith)
  perm_of_one (Permᴰ.trans p q) h = perm_of_one p h ∙ perm_of_one q (omega (arith, length-perm p))

  -- An element that is kept or passed over.
  abbrev cons_if : Bool → A → List A → List A
  cons_if true x xs = x ∷ xs
  cons_if false x xs = xs

  cons_if-perm :
      (b : Bool) (x : A) {xs ys : List A} → Permᴰ xs ys → Permᴰ (cons_if b x xs) (cons_if b x ys)
  cons_if-perm true x p = Permᴰ.cons refl p
  cons_if-perm false x p = p

  cons_if-swap :
      (b c : Bool) (x y : A) (xs : List A)
      → Permᴰ (cons_if b x (cons_if c y xs)) (cons_if c y (cons_if b x xs))
  cons_if-swap true true x y xs = Permᴰ.swap refl refl
  cons_if-swap true false x y xs = Permᴰ.refl (x ∷ xs)
  cons_if-swap false true x y xs = Permᴰ.refl (y ∷ xs)
  cons_if-swap false false x y xs = Permᴰ.refl xs

module _ {F : Type 0} ⦃d : Float F⦄ (add_comm : (x y : F) → d.add x y ≡ d.add y x) where
  -- Two prices have the same average in either order.
  consolidated-swap :
      (pair : Pair) (p q : Price F)
      → compute_consolidated_price (p ∷ q ∷ []) pair ≡ compute_consolidated_price (q ∷ p ∷ []) pair
  unfolding compute_consolidated_price
  consolidated-swap pair p q =
      ap (λ s. ok (consolidated pair (d.div s (d.of_nat 2)))) (add_comm p.price q.price)

  final-perm :
      (pair : Pair) {ps qs : List (Price F)}
      → Permᴰ ps qs
      → length ps < 3
      → final_price pair ps ≡ final_price pair qs
  unfolding final_price
  final-perm pair Permᴰ.nil h = refl
  final-perm pair (Permᴰ.cons e p) h =
      ap₂ (λ x xs. compute_consolidated_price (x ∷ xs) pair) e (perm_of_one p (omega arith))
  final-perm pair (Permᴰ.swap {a = a} {b = b} {l = []} e f) h =
      consolidated-swap pair a b ∙ ap₂ (λ x y. compute_consolidated_price (x ∷ y ∷ []) pair) f e
  final-perm pair (Permᴰ.swap {l = _ ∷ l} e f) h = absurd (omega arith)
  final-perm pair (Permᴰ.trans p q) h =
      final-perm pair p h ∙ final-perm pair q (omega (arith, length-perm p))

  abbrev kept : Price F → List (Price F) → List (Price F)
  kept a = cons_if a.valid a

  ask_all-cons :
      (pair : Pair) (g : Pair → Price F) (ps : List (Pair → Price F))
      → (ask_all pair (g ∷ ps)).0 ≡ kept (g pair) (ask_all pair ps).0
  unfolding ask_all
  ask_all-cons pair g ps = ground arith

  asked-perm :
      (pair : Pair) {ps qs : List (Pair → Price F)}
      → Permᴰ ps qs
      → Permᴰ (ask_all pair ps).0 (ask_all pair qs).0
  asked-perm pair Permᴰ.nil = Permᴰ.refl (ask_all pair []).0
  asked-perm pair (Permᴰ.cons {a = g} {b = g'} {l₁ = ps} {l₂ = qs} e p) =
      subst₂ Permᴰ (sym (ask_all-cons pair g ps))
        (ap (λ h. kept (h pair) (ask_all pair qs).0) e ∙ sym (ask_all-cons pair g' qs))
        (cons_if-perm (g pair).valid (g pair) (asked-perm pair p))
  asked-perm pair (Permᴰ.swap {a = g} {b = g'} {a' = h} {b' = h'} {l = l} e f) =
      let rest = (ask_all pair l).0 in
      subst₂ Permᴰ
        (sym (ask_all-cons pair g (g' ∷ l) ∙ ap (kept (g pair)) (ask_all-cons pair g' l)))
        (ap₂ (λ u v. kept (u pair) (kept (v pair) rest)) f e
          ∙ ap (kept (h pair)) (sym (ask_all-cons pair h' l))
          ∙ sym (ask_all-cons pair h (h' ∷ l)))
        (cons_if-swap (g pair).valid (g' pair).valid (g pair) (g' pair) rest)
  asked-perm pair (Permᴰ.trans p q) = Permᴰ.trans (asked-perm pair p) (asked-perm pair q)

  -- If the addition is commutative, the random order of the map does not matter while at most two
  -- answers count: whatever the order in which the providers are asked, the price, its source's
  -- name and its validity are the same.
  pub aggregate_price-order :
      (pair : Pair) (ps qs : List (Pair → Price F))
      → Permᴰ ps qs
      → count_valid (answers_of pair ps) < 3
      → (aggregate_price ps pair).0 ≡ (aggregate_price qs pair).0
  unfolding aggregate_price
  aggregate_price-order pair ps qs p few =
      final-perm pair (asked-perm pair p) (omega (arith, (asked_count pair ps).0))
