-- ===== src/PriceText/Kept.antt =====
-- What `float64ToDec` keeps of a formatted price, whatever its text.
use mathlib.Core.Path.{ap₂, subst}
use mathlib.Core.List.{append-nil}
use pricefeeder.Base.{
  text_eq, if◌then◌else◌, zero, suc, ℕ, ◌≤◌, ◌≡◌, refl, ◌∙◌, ap, sym, inl, inr, ◌⊎◌, Bool-cases,
  List, [], ◌∷◌, ◌++◌, Text, All, arith, length, take, ◌==◌, ltb, Result, ok, must-eq-ok,
}
use pricefeeder.Float.{Float}
use pricefeeder.PriceText.{split_at, decimal_part, cut_price, float64_to_dec}
use pricefeeder.PriceText.Split.{LacksByte}

-- The parts with the separator between them.
abbrev joined : ℕ → Text → List Text → Text
joined sep part [] = part
joined sep part (next ∷ parts) = part ++ (sep ∷ joined sep next parts)

module _ (sep : ℕ) where
  joined-cons :
      (c : ℕ) (part : Text) (parts : List Text)
      → joined sep (c ∷ part) parts ≡ c ∷ joined sep part parts
  joined-cons c part [] = refl
  joined-cons c part (next ∷ parts) = refl

  split_at-joined :
      (s : Text)
      → (joined sep (split_at sep s).0 (split_at sep s).1 ≡ s)
        × LacksByte sep (split_at sep s).0
        × All (LacksByte sep) (split_at sep s).1
  unfolding split_at
  split_at-joined [] = (refl, tt, tt)
  split_at-joined (c ∷ s) =
      let (same, lacks, all) = split_at-joined s in
      elim (Bool-cases (c == sep)) [
        | inl here ↦ rw here (ap₂ ◌∷◌ (ground arith) same, tt, (lacks, all))
        | inr other ↦ rw other (joined-cons c _ _ ∙ ap (λ t. c ∷ t) same, (other, lacks), all)
      ]

-- The digits that are kept behind the point, with the point.
abbrev pub first_digits : Text → Text
first_digits [] = []
first_digits (c ∷ frac) = b'.' ∷ take 18 (c ∷ frac)

-- A text without a point is kept. Else the part before the first point is kept, and of the part up to a second
-- point or the end at most 18 bytes, or not even the point if that part is empty.
abbrev pub IsCut : Text → Text → Type 0
IsCut s kept =
    (LacksByte b'.' s × (kept ≡ s))
    ⊎ ((whole : Text) × (frac : Text) × (rest : Text) × LacksByte b'.' whole
        × LacksByte b'.' frac
        × (s ≡ whole ++ (b'.' ∷ (frac ++ rest)))
        × ((rest ≡ []) ⊎ ((more : Text) × (rest ≡ b'.' ∷ more)))
        × (kept ≡ whole ++ first_digits frac))

take_all : (n : ℕ) (s : Text) → length s ≤ n → take n s ≡ s
take_all zero [] h = refl
take_all (suc n) [] h = refl
take_all zero (c ∷ s) h = absurd (omega arith)
take_all (suc n) (c ∷ s) h = ap (λ t. c ∷ t) (take_all n s (omega arith))

abbrev with_digits : Text → Text → Text
with_digits part dec = if text_eq dec [] then part else part ++ b'.' ∷ dec

cut_18 : (frac : Text) → (if ltb 18 (length frac) then take 18 frac else frac) ≡ take 18 frac
cut_18 frac = elim (Bool-cases (ltb 18 (length frac))) [
  | inl long ↦ rw long refl
  | inr short ↦ rw short (sym (take_all 18 frac (ground arith)))
]

with_digits-cut : (part frac : Text) → with_digits part (take 18 frac) ≡ part ++ first_digits frac
unfolding text_eq
with_digits-cut part [] = sym (append-nil part)
with_digits-cut part (c ∷ frac) = refl

abbrev rest_of : List Text → Text
rest_of [] = []
rest_of (next ∷ parts) = b'.' ∷ joined b'.' next parts

joined-rest : (frac : Text) (parts : List Text) → joined b'.' frac parts ≡ frac ++ rest_of parts
joined-rest frac [] = sym (append-nil frac)
joined-rest frac (next ∷ parts) = refl

rest_of-cases :
    (parts : List Text) → (rest_of parts ≡ []) ⊎ ((more : Text) × (rest_of parts ≡ b'.' ∷ more))
rest_of-cases [] = inl refl
rest_of-cases (next ∷ parts) = inr (joined b'.' next parts, refl)

-- The text after the cut, by the parts that the split gives.
parts-IsCut :
    (s part : Text) (parts : List Text)
    → joined b'.' part parts ≡ s
    → LacksByte b'.' part
    → All (LacksByte b'.') parts
    → IsCut s (with_digits part (decimal_part parts))
unfolding decimal_part text_eq
parts-IsCut s part [] same lacks all = inl (subst (LacksByte b'.') same lacks, same)
parts-IsCut s part (frac ∷ parts) same lacks (lacks_frac, all) = inr (
  part,
  frac,
  rest_of parts,
  lacks,
  lacks_frac,
  sym same ∙ ap (λ t. part ++ (b'.' ∷ t)) (joined-rest frac parts),
  rest_of-cases parts,
  ap (with_digits part) (cut_18 frac) ∙ with_digits-cut part frac,
)

cut_price-IsCut : (s : Text) → IsCut s (cut_price s)
unfolding cut_price
cut_price-IsCut s =
    let (same, lacks, all) = split_at-joined b'.' s in
    parts-IsCut s (split_at b'.' s).0 (split_at b'.' s).1 same lacks all

-- What `float64ToDec` makes of a price: what the decimal type reads from the cut text.
abbrev pub IsRate {ℓ} : {F : Type 0} ⦃d : Float F⦄ {D : Type ℓ} → (Text → Result D) → F → D → Type ℓ
IsRate ⦃d⦄ new_dec price rate =
    (kept : Text) × IsCut (d.format price) kept × (new_dec kept ≡ ok rate)

pub float64_to_dec-IsRate {ℓ} :
    {F : Type 0} ⦃d : Float F⦄ {D : Type ℓ} (new_dec : Text → Result D) (price : F) (rate : D)
    → float64_to_dec new_dec price ≡ ok rate
    → IsRate new_dec price rate
unfolding float64_to_dec
float64_to_dec-IsRate ⦃d⦄ new_dec price rate h =
    (cut_price (d.format price), cut_price-IsCut (d.format price), must-eq-ok _ h)
