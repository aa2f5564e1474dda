-- ===== src/Sample.antt =====
-- A concrete arithmetic for the tests: whole numbers with NaN, where division and the square root
-- are cut to whole numbers. It is not float64; it shows that the laws can be met together.
use pricefeeder.Float.{Float, ◌≼◌, IsIeee}
use pricefeeder.Base.{
  ℕ, ◌≡◌, ap, zero, suc, ◌+◌, ◌-◌, ◌*◌, ◌/◌, Bool, true, false, not, Option, none, some, arith, leb,
  ltb, if◌then◌else◌, Text, text, text_eq, decimal, parse_uint, ok, err, panic, ◌++◌,
}

-- `negsuc n` is -(n + 1).
pub data Number : Type 0 where
  pos : ℕ → Number
  negsuc : ℕ → Number
  nan : Number

abbrev above : Number → ℕ
above (pos n) = n
above _ = 0

abbrev below : Number → ℕ
below (negsuc n) = suc n
below _ = 0

abbrev is_nan : Number → Bool
is_nan nan = true
is_nan _ = false

-- a - b, as a signed number.
abbrev pub minus : ℕ → ℕ → Number
minus a b = if leb b a then pos (a - b) else negsuc (b - a - 1)

abbrev lift : (Number → Number → Number) → Number → Number → Number
lift f nan y = nan
lift f x nan = nan
lift f x y = f x y

abbrev compare_by : (ℕ → ℕ → Bool) → Number → Number → Bool
compare_by f nan y = false
compare_by f x nan = false
compare_by f x y = f (above x + below y) (above y + below x)

abbrev negate : Number → Number
negate nan = nan
negate x = minus (below x) (above x)

abbrev plus : Number → Number → Number
plus = lift λ x y. minus (above x + above y) (below x + below y)

abbrev times : Number → Number → Number
times =
    lift
      λ x y. minus (above x * above y + below x * below y) (above x * below y + below x * above y)

abbrev over : Number → Number → Number
over =
    lift
      λ x y. minus (above x / above y + below x / below y) (above x / below y + below x / above y)

root_below : ℕ → ℕ → ℕ
root_below zero n = 0
root_below (suc k) n = let rest = root_below k n in if leb (suc k * suc k) n then suc k else rest

abbrev magnitude : Number → Number
magnitude nan = nan
magnitude x = pos (above x + below x)

unfoldable pub root : Number → Number
unfolding root_below
root (pos n) = pos (root_below n n)
root _ = nan

unfoldable pub print : Number → Text
print (pos n) = decimal n
print (negsuc n) = text "-" ++ decimal (suc n)
print nan = text "NaN"

unfoldable pub read : Text → Option Number
read s =
    if text_eq s (text "NaN")
    then some nan
    else elim (parse_uint s) [ ok n ↦ some (pos n) | err e ↦ none | panic ↦ none ]

instance abbrev pub number_float : Float Number
number_float = record {
  of_nat = pos;
  neg = negate;
  add = plus;
  sub = λ x y. plus x (negate y);
  mul = times;
  div = over;
  abs = magnitude;
  sqrt = root;
  lt = compare_by ltb;
  le = compare_by leb;
  is_nan = is_nan;
  format = print;
  parse = read;
}

abbrev pub is_finite : Number → Bool
is_finite x = not (is_nan x)

half_mono : (a b : Number) → a ≼ b → over a (pos 2) ≼ over b (pos 2)
half_mono (pos a) (pos b) h = ground arith
half_mono (pos a) (negsuc b) h = ground arith
half_mono (negsuc a) (pos b) h = ground arith
half_mono (negsuc a) (negsuc b) h = ground arith
half_mono _ _ h = ground arith

positive_antisym : (x y : Number) → number_float.lt (pos 0) x ≡ true → x ≼ y → y ≼ x → x ≡ y
positive_antisym (pos a) (pos b) h k l = ap pos (ground arith)
positive_antisym (pos a) (negsuc b) h k l = absurd (ground arith)
positive_antisym (negsuc a) (pos b) h k l = absurd (ground arith)
positive_antisym (negsuc a) (negsuc b) h k l = absurd (ground arith)
positive_antisym _ _ h k l = absurd (ground arith)

pub Number-IsIeee : IsIeee Number is_finite
Number-IsIeee = record {
  le_num = λ x y h. ground arith;
  le_trans = λ x y z h k. ground arith;
  le_total = λ x y h k. ground arith;
  le_antisym = positive_antisym;
  lt_num = λ x y h. ground arith;
  lt-eq-not_le = λ x y h k. ground arith;
  is_nan-eq-not_le = λ x. ground arith;
  add_mono = λ a b c e h k n m. ground arith;
  half_mono = half_mono;
  half_double = λ x h. ground arith;
  finite_num = λ x h. ground arith;
  finite_of_double = λ x h. ground arith;
  finite_add_num = λ x y h k. ground arith;
  add_nan = λ x y h. ground arith;
  add_nan_right = λ x y h. ground arith;
  div_nan = λ x y h. ground arith;
  sub_nan_right = λ x y h. ground arith;
  abs_nan = λ x h. ground arith;
}
