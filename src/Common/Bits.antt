-- ===== src/Common/Bits.antt =====
-- Exclusive or at variables, from the recursion on binary digits that it stands for.
use Prim.Native.Nat.{bit_xor, digits, differ, bit_xor-bitwise}
use native.Mathlib.Nat.{pow-suc}
use terminal_wrestling_leagu.Common.{
  ℕ, zero, suc, ◌+◌, ◌*◌, ◌/◌, ◌%◌, ◌^◌, ◌≤◌, ◌<◌, ◌≡◌, refl, ap, arith,
}

-- The recursion with a count of rounds, of which any number that is large enough will do.
abbrev xor_rounds : ℕ → ℕ → ℕ → ℕ
xor_rounds = digits (λ rest. rest) differ

xor_rounds_done : (rounds b : ℕ) → xor_rounds rounds 0 b ≡ b
xor_rounds_done zero b = refl
xor_rounds_done (suc rounds) b = refl

xor_rounds_enough :
    (short long a b : ℕ) → a ≤ short → short ≤ long → xor_rounds long a b ≡ xor_rounds short a b
xor_rounds_enough short long zero b p q =
    omega (arith, xor_rounds_done short b, xor_rounds_done long b)
xor_rounds_enough zero long (suc a) b p q = absurd (omega arith)
xor_rounds_enough (suc short) zero (suc a) b p q = absurd (omega arith)
xor_rounds_enough (suc short) (suc long) (suc a) b p q =
    ap (λ high. high * 2 + differ (suc a % 2) (b % 2))
      (xor_rounds_enough short long (suc a / 2) (b / 2) (omega arith) (omega arith))

zero-bit_xor : (b : ℕ) → bit_xor 0 b ≡ b
zero-bit_xor b = bit_xor-bitwise 0 b

differ_zero_left : (b : ℕ) → differ 0 b ≡ b
differ_zero_left b = refl

bit_xor_step : (a b : ℕ) → bit_xor a b ≡ bit_xor (a / 2) (b / 2) * 2 + differ (a % 2) (b % 2)
bit_xor_step zero b = omega (arith, zero-bit_xor b, zero-bit_xor (b / 2), differ_zero_left (b % 2))
bit_xor_step (suc a) b = omega (
  arith,
  bit_xor-bitwise (suc a) b,
  bit_xor-bitwise (suc a / 2) (b / 2),
  xor_rounds_enough (suc a / 2) a (suc a / 2) (b / 2) (omega arith) (omega arith),
)

differ-eq : (x y : ℕ) → differ x y ≡ 0 → x ≡ y
differ-eq zero zero h = refl
differ-eq zero (suc y) h = omega arith
differ-eq (suc x) zero h = omega arith
differ-eq (suc x) (suc y) h = omega (arith, differ-eq x y h)

differ-le : (x y : ℕ) → x ≤ 1 → y ≤ 1 → differ x y ≤ 1
differ-le zero y p q = q
differ-le (suc x) zero p q = p
differ-le (suc x) (suc y) p q = differ-le x y (omega arith) (omega arith)

xor-eq_fuel : (n a b : ℕ) → a ≤ n → b ≤ n → bit_xor a b ≡ 0 → a ≡ b
xor-eq_fuel zero a b p q h = omega arith
xor-eq_fuel (suc n) a b p q h =
    let step = bit_xor_step a b in
    let low = differ-eq (a % 2) (b % 2) (omega arith) in
    let high = xor-eq_fuel n (a / 2) (b / 2) (omega arith) (omega arith) (omega arith) in
    omega arith

-- Only equal numbers cancel.
pub bit_xor-eq : (a b : ℕ) → bit_xor a b ≡ 0 → a ≡ b
bit_xor-eq a b h = xor-eq_fuel (a + b) a b (omega arith) (omega arith) h

-- Two numbers of `k` binary digits have an exclusive or of `k` digits.
pub bit_xor-lt : (k a b : ℕ) → a < 2 ^ k → b < 2 ^ k → bit_xor a b < 2 ^ k
bit_xor-lt zero a b p q =
    let left : a ≡ 0 = omega arith in
    let right : b ≡ 0 = omega arith in rw (left, right) (omega arith)
bit_xor-lt (suc k) a b p q = omega (
  arith,
  bit_xor_step a b,
  differ-le (a % 2) (b % 2) (omega arith) (omega arith),
  bit_xor-lt k (a / 2) (b / 2) (omega (arith, pow-suc 2 k)) (omega (arith, pow-suc 2 k)),
  pow-suc 2 k,
)
