-- ===== src/PriceText/Cut.antt =====
-- The price that is posted is the price cut to 18 decimal digits, towards zero.
use native.Mathlib.Nat.{pow-suc, mul-le-mul, le_refl, sub-zero, suc-sub-suc}
use pricefeeder.Base.{
  ℕ, zero, suc, ◌+◌, ◌-◌, ◌*◌, ◌^◌, ◌≤◌, ◌<◌, ◌≡◌, refl, true, false, [], ◌∷◌, ◌++◌, Text, All,
  length, take, arith, is_digit, ltb, ap, text_eq, if◌then◌else◌,
}
use pricefeeder.PriceText.{decimal_part, cut_price}
use pricefeeder.PriceText.Split.{LacksByte, split_at-lacking, split_at-whole}

-- A part of a formatted number: a sign and digits, and no point.
abbrev pub IsPointless : Text → Type 0
IsPointless = LacksByte b'.'

take_short : (n : ℕ) (s : Text) → length s ≤ n → take n s ≡ s
take_short zero [] h = refl
take_short zero (c ∷ s) h = absurd (omega arith)
take_short (suc n) [] h = refl
take_short (suc n) (c ∷ s) h = ap (◌∷◌ c) (take_short n s (omega arith))

first_18 : (s : Text) → (if ltb 18 (length s) then take 18 s else s) ≡ take 18 s
first_18 s = ground (arith, take_short 18 s)

cut-not_nil : (s : Text) → 0 < length s → text_eq (take 18 s) [] ≡ false
unfolding text_eq
cut-not_nil [] h = elim h [ ]
cut-not_nil (c ∷ s) h = refl

-- A formatted price keeps its whole part and the first 18 digits behind the point; a price with no
-- point is kept as it is.
pub cut_price-formatted :
    (whole frac : Text)
    → IsPointless whole
    → IsPointless frac
    → 0 < length frac
    → (cut_price (whole ++ (b'.' ∷ frac)) ≡ whole ++ (b'.' ∷ take 18 frac))
      × (cut_price whole ≡ whole)
unfolding cut_price decimal_part text_eq
cut_price-formatted whole frac w f some_digit = (
  rw (split_at-lacking b'.' whole frac w, split_at-whole b'.' frac f)
      (ground (arith, first_18 frac, cut-not_nil frac some_digit)),
  rw (split_at-whole b'.' whole w),
)

-- The number that a row of digits stands for.
abbrev pub value_from : ℕ → Text → ℕ
value_from n [] = n
value_from n (c ∷ s) = value_from (n * 10 + (c - b'0')) s

abbrev pub value : Text → ℕ
value = value_from 0

abbrev pub IsNumeral : Text → Type 0
IsNumeral = All (λ c. is_digit c ≡ true)

digit_bounds :
    (n e p v : ℕ)
    → e ≤ 9
    → (n * 10 + e) * p ≤ v
    → v < (n * 10 + e + 1) * p
    → (n * (p * 10) ≤ v) × (v < (n + 1) * (p * 10))
digit_bounds n e p v small low high = omega (arith, mul-le-mul small (le_refl p))

value_from_bounds :
    (n : ℕ) (s : Text)
    → IsNumeral s
    → (n * 10 ^ length s ≤ value_from n s) × (value_from n s < (n + 1) * 10 ^ length s)
value_from_bounds n [] h = (omega arith, omega arith)
value_from_bounds n (c ∷ s) (d, h) =
    let (low, high) = value_from_bounds (n * 10 + (c - b'0')) s h in
    let (low', high') = digit_bounds n (c - b'0') (10 ^ length s) _ (ground arith) low high in
    rw pow-suc (low', high')

value_from-append : (n : ℕ) (s t : Text) → value_from n (s ++ t) ≡ value_from (value_from n s) t
value_from-append n [] t = refl
value_from-append n (c ∷ s) t = value_from-append (n * 10 + (c - b'0')) s t

digits-IsPointless : (s : Text) → IsNumeral s → IsPointless s
digits-IsPointless [] h = tt
digits-IsPointless (c ∷ s) (d, h) = (ground arith, digits-IsPointless s h)

value_from-take :
    (n k : ℕ) (s : Text)
    → IsNumeral s
    → k ≤ length s
    → (value_from n (take k s) * 10 ^ (length s - k) ≤ value_from n s)
      × (value_from n s < (value_from n (take k s) + 1) * 10 ^ (length s - k))
value_from-take n zero s h le = rw sub-zero (value_from_bounds n s h)
value_from-take n (suc k) [] h le = absurd (omega arith)
value_from-take n (suc k) (c ∷ s) (d, h) le =
    rw suc-sub-suc (value_from-take (n * 10 + (c - b'0')) k s h (omega arith))

-- A formatted price with 18 digits or more behind its point is cut, not rounded: the digits that are
-- kept stand for the largest number of units of 10^-18 that is not above the price.
pub cut_price-floor :
    (whole frac : Text)
    → IsNumeral whole
    → IsNumeral frac
    → 18 ≤ length frac
    → let kept = take 18 frac in
      (cut_price (whole ++ (b'.' ∷ frac)) ≡ whole ++ (b'.' ∷ kept))
      × (value (whole ++ kept) * 10 ^ (length frac - 18) ≤ value (whole ++ frac))
      × (value (whole ++ frac) < (value (whole ++ kept) + 1) * 10 ^ (length frac - 18))
cut_price-floor whole frac w f long =
    let (low, high) = value_from-take (value whole) 18 frac f long in
    let split_kept = value_from-append 0 whole (take 18 frac) in
    let split_all = value_from-append 0 whole frac in
    (
      (cut_price-formatted whole frac (digits-IsPointless whole w) (digits-IsPointless frac f)
          (omega arith)).0,
      rw (split_kept, split_all) low,
      rw (split_kept, split_all) high,
    )
