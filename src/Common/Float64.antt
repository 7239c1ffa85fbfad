-- ===== src/Common/Float64.antt =====
-- All that the code does with a `float64`: its literals, the operations of `math` and the tests.
use terminal_wrestling_leagu.Common.{ℕ, ◌*◌, ◌^◌, ◌≡◌, Bool, false, ltb}

-- `literal n k` is the number nearest to n / 10 ^ k.
pub record Float64 (F : Type 0) : Type 0 where
  pub literal : ℕ → ℕ → F
  pub pi : F
  pub plus : F → F → F
  pub minus : F → F → F
  pub times : F → F → F
  pub over : F → F → F
  pub power : F → F → F
  pub least : F → F → F
  pub negated : F → F
  pub sqrt : F → F
  pub exp : F → F
  pub log : F → F
  pub abs : F → F
  pub round : F → F
  pub lt : F → F → Bool
  pub le : F → F → Bool
  pub eq : F → F → Bool
  pub is_nan : F → Bool
  pub is_inf : F → Bool

module _ {F : Type 0} ⦃fl : Float64 F⦄ where
  infixl 65 ◌+f◌ ◌-f◌
  infixl 70 ◌*f◌ ◌/f◌
  infix 50 ◌<f◌ ◌≤f◌
  abbrev pub ◌+f◌ : F → F → F
  x +f y = fl.plus x y

  abbrev pub ◌-f◌ : F → F → F
  x -f y = fl.minus x y

  abbrev pub ◌*f◌ : F → F → F
  x *f y = fl.times x y

  abbrev pub ◌/f◌ : F → F → F
  x /f y = fl.over x y

  abbrev pub ◌<f◌ : F → F → Bool
  x <f y = fl.lt x y

  abbrev pub ◌≤f◌ : F → F → Bool
  x ≤f y = fl.le x y

  abbrev pub float : ℕ → F
  float n = fl.literal n 0

-- Rounding a literal keeps the order of the numbers that are written.
pub record IsRounded (F : Type 0) ⦃fl : Float64 F⦄ : Type 0 where
  pub literal_mono :
      (a k b j : ℕ)
      → ltb (a * 10 ^ j) (b * 10 ^ k) ≡ false
      → fl.lt (fl.literal a k) (fl.literal b j) ≡ false
