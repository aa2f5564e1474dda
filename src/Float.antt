-- ===== src/Float.antt =====
-- The operations of Go's float64 that the code uses, as an interface over an unknown type, and the
-- documented behaviour of IEEE 754 arithmetic that the theorems rely on.
use pricefeeder.Base.{ℕ, ◌≡◌, Bool, true, not, Option, Text, ◌⊎◌}

pub record Float (F : Type 0) : Type 0 where
  -- `float64(n)`, also the integer constants
  pub of_nat : ℕ → F
  pub neg : F → F
  pub add : F → F → F
  pub sub : F → F → F
  pub mul : F → F → F
  pub div : F → F → F
  -- `math.Abs`, `math.Sqrt`
  pub abs : F → F
  pub sqrt : F → F
  -- `<` and `<=`
  pub lt : F → F → Bool
  pub le : F → F → Bool
  -- `x != x`
  pub is_nan : F → Bool
  -- `strconv.FormatFloat(x, 'f', -1, 64)` and `strconv.ParseFloat(s, 64)`, `none` for an error
  pub format : F → Text
  pub parse : Text → Option F

infix 4 ◌≼◌
abbrev pub ◌≼◌ : {F : Type 0} ⦃d : Float F⦄ → F → F → Type 0
◌≼◌ ⦃d⦄ x y = d.le x y ≡ true

-- A number, as opposed to NaN.
abbrev pub IsNum : {F : Type 0} ⦃d : Float F⦄ → F → Type 0
IsNum x = x ≼ x

-- `x + x` does not overflow: the magnitude is at most half of the largest float64.
abbrev pub IsModerate : {F : Type 0} ⦃d : Float F⦄ → (F → Bool) → F → Type 0
IsModerate ⦃d⦄ is_finite x = is_finite (d.add x x) ≡ true

-- Comparisons order the numbers and are false at NaN; only the two zeros are equal and differ; rounding is monotonic; doubling and halving
-- are exact short of overflow; NaN goes through arithmetic. `is_finite` tells NaN and the infinities
-- from the other values.
pub record IsIeee (F : Type 0) ⦃d : Float F⦄ (is_finite : F → Bool) : Type 0 where
  pub le_num : (x y : F) → x ≼ y → IsNum x × IsNum y
  pub le_trans : (x y z : F) → x ≼ y → y ≼ z → x ≼ z
  pub le_total : (x y : F) → IsNum x → IsNum y → (x ≼ y) ⊎ (y ≼ x)
  pub le_antisym : (x y : F) → d.lt (d.of_nat 0) x ≡ true → x ≼ y → y ≼ x → x ≡ y
  pub lt_num : (x y : F) → d.lt x y ≡ true → IsNum y
  pub lt-eq-not_le : (x y : F) → IsNum x → IsNum y → d.lt x y ≡ not (d.le y x)
  pub is_nan-eq-not_le : (x : F) → d.is_nan x ≡ not (d.le x x)
  pub add_mono :
      (a b c e : F) → a ≼ b → c ≼ e → IsNum (d.add a c) → IsNum (d.add b e) → d.add a c ≼ d.add b e
  pub half_mono : (a b : F) → a ≼ b → d.div a (d.of_nat 2) ≼ d.div b (d.of_nat 2)
  pub half_double : (x : F) → IsModerate is_finite x → d.div (d.add x x) (d.of_nat 2) ≡ x
  pub finite_num : (x : F) → is_finite x ≡ true → IsNum x
  pub finite_of_double : (x : F) → IsModerate is_finite x → is_finite x ≡ true
  pub finite_add_num : (x y : F) → is_finite x ≡ true → is_finite y ≡ true → IsNum (d.add x y)
  pub add_nan : (x y : F) → d.is_nan x ≡ true → d.is_nan (d.add x y) ≡ true
  pub add_nan_right : (x y : F) → d.is_nan y ≡ true → d.is_nan (d.add x y) ≡ true
  pub div_nan : (x y : F) → d.is_nan x ≡ true → d.is_nan (d.div x y) ≡ true
  pub sub_nan_right : (x y : F) → d.is_nan y ≡ true → d.is_nan (d.sub x y) ≡ true
  pub abs_nan : (x : F) → d.is_nan x ≡ true → d.is_nan (d.abs x) ≡ true
