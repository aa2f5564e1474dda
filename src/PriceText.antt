-- ===== src/PriceText.antt =====
-- `float64ToDec` of feeder/priceposter/oracle.go: a price as the text that the chain's decimal type
-- is made from.
pub mod Split
pub mod Cut
pub mod Kept
use pricefeeder.Base.{
  ℕ, ◌<◌, List, [], ◌∷◌, ◌++◌, Text, length, ltb, take, ◌==◌, if◌then◌else◌, text_eq, Result, err,
  panic, ok, must,
}
use pricefeeder.Float.{Float}

-- `strings.Split(s, sep)` at a separator of one byte: the first part, and the parts behind it.
unfoldable pub split_at : ℕ → Text → Text × List Text
split_at sep [] = ([], [])
split_at sep (c ∷ s) =
    let (part, parts) = split_at sep s in if c == sep then ([], part ∷ parts) else (c ∷ part, parts)

-- `decPart`, the second part if there is one, cut to 18 bytes.
unfoldable pub decimal_part : List Text → Text
decimal_part [] = []
decimal_part (part ∷ parts) = if ltb 18 (length part) then take 18 part else part

unfoldable pub cut_price : Text → Text
unfolding split_at decimal_part
cut_price formatted =
    let (int_part, parts) = split_at b'.' formatted in
    let dec_part = decimal_part parts in
    if text_eq dec_part [] then int_part else int_part ++ b'.' ∷ dec_part

-- `new_dec` stands for `LegacyNewDecFromStr`: an error if the text is no decimal numeral.
unfoldable pub float64_to_dec {ℓ} :
    {F : Type 0} ⦃d : Float F⦄ {D : Type ℓ} → (Text → Result D) → F → Result D
unfolding cut_price
float64_to_dec ⦃d⦄ new_dec price = must (new_dec (cut_price (d.format price)))
