-- ===== src/System/Answers.antt =====
-- The aggregate's price is one that the answers of its providers allow.
use mathlib.Core.Path.{subst}
use pricefeeder.Base.{◌≡◌, ◌∙◌, sym, Bool, List, [], ◌∷◌, All, ok, ok-injective, ◌⊎◌}
use pricefeeder.Float.{Float, IsIeee, ◌≼◌}
use pricefeeder.Types.{Pair, Price}
use pricefeeder.Aggregate.{aggregate_price}
use pricefeeder.Aggregate.Bounds.{aggregate_price-InRange, ValidWithin}
use pricefeeder.Aggregate.Answers.{
  IsInvalid, answers_of, aggregate_price_none, aggregate_price_few, aggregate_price-NamesPair,
}
use pricefeeder.System.Spec.{CountsBetween, Allowed}

module _ {F : Type 0} ⦃d : Float F⦄ {is_finite : F → Bool} (laws : IsIeee F is_finite) where
  ValidWithin-answers :
      (lo hi : F) (pair : Pair) (providers : List (Pair → Price F))
      → All (CountsBetween is_finite lo hi) (answers_of pair providers)
      → ValidWithin laws lo hi pair providers
  ValidWithin-answers lo hi pair [] h = tt
  ValidWithin-answers lo hi pair (p ∷ providers) (h, hs) =
      (h, ValidWithin-answers lo hi pair providers hs)

  pub aggregate_price-Allowed :
      (providers : List (Pair → Price F)) (pair : Pair) (r : Price F)
      → (aggregate_price providers pair).0 ≡ ok r
      → Allowed is_finite (answers_of pair providers) pair r
  aggregate_price-Allowed providers pair r e = record {
    names = λ h. aggregate_price-NamesPair providers pair r h e;
    none_counts = λ none. ok-injective (sym e ∙ aggregate_price_none providers pair none);
    few_count = λ some_count few. aggregate_price_few providers pair r some_count few e;
    between = λ lo hi h.
        let (r', e', within) =
          aggregate_price-InRange laws lo hi providers pair
            (ValidWithin-answers lo hi pair providers h) in
        subst (λ (q : Price F). IsInvalid q ⊎ ((lo ≼ q.price) × (q.price ≼ hi)))
          (ok-injective (sym e' ∙ e)) within;
  }
