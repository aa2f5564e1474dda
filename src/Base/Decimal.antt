-- ===== src/Base/Decimal.antt =====
-- Decimal numerals: `big.Int.String` and `strconv.ParseUint(s, 10, 64)` of Go's standard library.
use Prim.Native.Nat.{ℕ, zero, suc, ◌+◌, ◌-◌, ◌*◌, ◌/◌, ◌%◌, ◌^◌, ◌≤◌, ◌<◌}
use mathlib.Core.Path.{◌≡◌, refl, ◌∙◌}
use mathlib.Core.Logic.{inl, inr}
use mathlib.Core.Bool.{Bool, ◌&&◌}
use mathlib.Core.List.{[], ◌∷◌, ◌++◌}
use native.Mathlib.Omega.{arith}
use native.Mathlib.Nat.{pow-suc}
use pricefeeder.Base.Tests.{leb, ltb, if◌then◌else◌, Bool-cases}
use pricefeeder.Base.Lists.{length, length-append}
use pricefeeder.Base.Strings.{Text, text}
use pricefeeder.Base.Outcome.{Result, ok, err, ◌>>=◌}

abbrev pub u64_mod : ℕ
u64_mod = 2 ^ 64

abbrev pub is_digit : ℕ → Bool
is_digit c = leb b'0' c && leb c b'9'

decimal_fuel : ℕ → ℕ → Text
decimal_fuel zero n = []
decimal_fuel (suc f) n =
    let more = decimal_fuel f (n / 10) ++ (b'0' + n % 10) ∷ [] in
    if ltb n 10 then (b'0' + n % 10) ∷ [] else more

-- The shortest decimal numeral.
unfoldable pub decimal : ℕ → Text
unfolding decimal_fuel
decimal n = decimal_fuel (suc n) n

abbrev syntax_error : Text
syntax_error = text "invalid syntax"

abbrev pub range_error : Text
range_error = text "value out of range"

parse_loop : ℕ → Text → Result ℕ
parse_loop n [] = ok n
parse_loop n (c ∷ s) =
    let rest = parse_loop (n * 10 + (c - b'0')) s in
    if is_digit c
    then (if leb u64_mod (n * 10 + (c - b'0')) then err range_error else rest)
    else err syntax_error

unfoldable pub parse_uint : Text → Result ℕ
unfolding parse_loop
parse_uint [] = err syntax_error
parse_uint (c ∷ s) = parse_loop 0 (c ∷ s)

parse_loop-append :
    (n : ℕ) (s t : Text) → parse_loop n (s ++ t) ≡ (parse_loop n s >>= λ m. parse_loop m t)
unfolding parse_loop
parse_loop-append n [] t = refl
parse_loop-append n (c ∷ s) t = ground (arith, parse_loop-append (n * 10 + (c - b'0')) s t)

abbrev pub read_back : ℕ → Result ℕ
read_back n = if ltb n u64_mod then ok n else err range_error

parse_loop-digit : (m n : ℕ) → m ≡ n / 10 → parse_loop m ((b'0' + n % 10) ∷ []) ≡ read_back n
unfolding parse_loop
parse_loop-digit m n e = ground arith

read_back-digit :
    (n : ℕ) → (read_back (n / 10) >>= λ m. parse_loop m ((b'0' + n % 10) ∷ [])) ≡ read_back n
read_back-digit n = elim (Bool-cases (ltb (n / 10) u64_mod)) [
  | inl small ↦ rw small (parse_loop-digit (n / 10) n refl)
  | inr large ↦ rw large (ground arith)
]

parse_loop-decimal_fuel : (f n : ℕ) → n < f → parse_loop 0 (decimal_fuel f n) ≡ read_back n
unfolding decimal_fuel
parse_loop-decimal_fuel zero n h = elim h [ ]
parse_loop-decimal_fuel (suc f) n h = elim (Bool-cases (ltb n 10)) [
  | inl short ↦ rw short (parse_loop-digit 0 n (ground arith))
  | inr long ↦
      rw (long, parse_loop-append, parse_loop-decimal_fuel f (n / 10) (ground arith))
        (read_back-digit n)
]

decimal_fuel-ne-nil : (f n : ℕ) → n < f → 0 < length (decimal_fuel f n)
unfolding decimal_fuel
decimal_fuel-ne-nil zero n h = elim h [ ]
decimal_fuel-ne-nil (suc f) n h =
    ground (arith, length-append (decimal_fuel f (n / 10)) ((b'0' + n % 10) ∷ []))

parse_uint-eq-parse_loop : (s : Text) → 0 < length s → parse_uint s ≡ parse_loop 0 s
unfolding parse_uint
parse_uint-eq-parse_loop [] h = elim h [ ]
parse_uint-eq-parse_loop (c ∷ s) h = refl

-- The numeral of `n` is read back as `n`, and refused when `n` does not fit 64 bits.
pub parse_uint-decimal : (n : ℕ) → parse_uint (decimal n) ≡ read_back n
unfolding decimal
parse_uint-decimal n =
    parse_uint-eq-parse_loop _ (decimal_fuel-ne-nil (suc n) n (omega arith))
    ∙ parse_loop-decimal_fuel (suc n) n (omega arith)

-- A numeral of `d` digits at most, for numbers below `10 ^ d`.
length-decimal_fuel : (f n d : ℕ) → n < 10 ^ suc d → length (decimal_fuel f n) ≤ suc d
unfolding decimal_fuel
length-decimal_fuel zero n d h = omega arith
length-decimal_fuel (suc f) n zero h = ground arith
length-decimal_fuel (suc f) n (suc d) h = ground (
  arith,
  length-decimal_fuel f (n / 10) d (grind (arith, pow-suc)),
  length-append (decimal_fuel f (n / 10)) ((b'0' + n % 10) ∷ []),
)

pub decimal-ne-nil : (n : ℕ) → 0 < length (decimal n)
unfolding decimal
decimal-ne-nil n = decimal_fuel-ne-nil (suc n) n (omega arith)

pub length-decimal : (n d : ℕ) → n < 10 ^ suc d → length (decimal n) ≤ suc d
unfolding decimal
length-decimal n d h = length-decimal_fuel (suc n) n d h
