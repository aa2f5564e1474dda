-- ===== src/PriceText/Split.antt =====
-- `strings.Split` on texts that are joined by the separator.
use pricefeeder.Base.{ℕ, ◌≡◌, refl, false, [], ◌∷◌, ◌++◌, Text, All, arith, ◌==◌}
use pricefeeder.PriceText.{split_at}

-- The separator does not occur.
abbrev pub LacksByte : ℕ → Text → Type 0
LacksByte sep = All (λ c. (c == sep) ≡ false)

module _ (sep : ℕ) where
  pub split_at-lacking :
      (s rest : Text)
      → LacksByte sep s
      → split_at sep (s ++ (sep ∷ rest)) ≡ (s, (split_at sep rest).0 ∷ (split_at sep rest).1)
  unfolding split_at
  split_at-lacking [] rest n = ground arith
  split_at-lacking (c ∷ s) rest (d, n) = ground (arith, split_at-lacking s rest n)

  pub split_at-whole : (s : Text) → LacksByte sep s → split_at sep s ≡ (s, [])
  unfolding split_at
  split_at-whole [] n = refl
  split_at-whole (c ∷ s) (d, n) = ground (arith, split_at-whole s n)
