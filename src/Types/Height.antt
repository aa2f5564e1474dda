-- ===== src/Types/Height.antt =====
-- `GetBlockHeight` on the numerals that a node writes.
use pricefeeder.Base.{
  ℕ, ◌≡◌, false, Text, text_eq, text_eq_sound, [], Result, ok, err, decimal, decimal-ne-nil,
  parse_uint-decimal, u64_mod, range_error, arith, Bool-cases, inl, inr, ltb, if◌then◌else◌,
}
use pricefeeder.Types.{NewBlockJson, get_block_height}

abbrev pub height_of : NewBlockJson → Text
height_of t = t.result.block_data.value.block.header.height

decimal-not_nil : (n : ℕ) → text_eq (decimal n) [] ≡ false
decimal-not_nil n = elim (Bool-cases (text_eq (decimal n) [])) [
  | inl e ↦
      let empty : decimal n ≡ [] = text_eq_sound (decimal n) [] e in
      absurd (ground (arith, decimal-ne-nil n))
  | inr e ↦ e
]

module _ (unmarshal : Text → Result NewBlockJson) (msg : Text) (t : NewBlockJson) where
  -- A header with the numeral of `n` is read as the height `n` if `n` fits 64 bits, and is refused
  -- with a range error if it does not.
  pub get_block_height-decimal :
      (n : ℕ)
      → unmarshal msg ≡ ok t
      → height_of t ≡ decimal n
      → get_block_height unmarshal msg ≡ (if ltb n u64_mod then ok n else err range_error)
  unfolding get_block_height
  get_block_height-decimal n decoded numeral =
      rw (decoded, numeral, decimal-not_nil, parse_uint-decimal) (ground arith)
