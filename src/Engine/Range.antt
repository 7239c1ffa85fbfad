-- ===== src/Engine/Range.antt =====
-- The random numbers stay in range, and the generator never dies.
use Prim.Native.Nat.{bit_xor}
use terminal_wrestling_leagu.Common.{ℕ, ◌*◌, ◌/◌, ◌%◌, ◌^◌, ◌<◌, ◌≡◌, ◌≢◌, arith, true, false}
use terminal_wrestling_leagu.Common.Int.{ℤ, pos, negsuc, ◌≤ℤ◌, ltb_ℤ}
use terminal_wrestling_leagu.Common.Bits.{bit_xor-eq, bit_xor-lt}
use terminal_wrestling_leagu.Engine.Rng.{
  DeterministicRng, new_deterministic_rng, xorshift, next_uint64, next_int,
}

-- A state that the generator can be in: 64 bits, not all of them 0.
pub record IsLive (r : DeterministicRng) : Type 0 where
  pub nonzero : r.state ≢ 0
  pub in_u64 : r.state < 2 ^ 64

-- Each of the three steps is 0 only at 0.
right_step : (x : ℕ) → x ≢ 0 → bit_xor x (x / 2 ^ 12) ≢ 0
right_step x h e = h (omega (arith, bit_xor-eq x (x / 2 ^ 12) e))

left_step : (x : ℕ) → x < 2 ^ 64 → x ≢ 0 → bit_xor x (x * 2 ^ 25 % 2 ^ 64) ≢ 0
left_step x lt h e = h (omega (arith, bit_xor-eq x (x * 2 ^ 25 % 2 ^ 64) e))

last_step : (x : ℕ) → x ≢ 0 → bit_xor x (x / 2 ^ 27) ≢ 0
last_step x h e = h (omega (arith, bit_xor-eq x (x / 2 ^ 27) e))

xorshift-lt : (s : ℕ) → s < 2 ^ 64 → xorshift s < 2 ^ 64
unfolding xorshift
xorshift-lt s lt =
    let first = bit_xor-lt 64 s (s / 2 ^ 12) lt (omega arith) in
    let second = bit_xor-lt 64 _ (bit_xor s (s / 2 ^ 12) * 2 ^ 25 % 2 ^ 64) first (omega arith) in
    bit_xor-lt 64 _ _ second (omega arith)

xorshift_nonzero : (s : ℕ) → s < 2 ^ 64 → s ≢ 0 → xorshift s ≢ 0
unfolding xorshift
xorshift_nonzero s lt h =
    last_step _ (left_step _ (bit_xor-lt 64 s (s / 2 ^ 12) lt (omega arith)) (right_step s h))

-- A generator made from any 64-bit seed is live: 0 is replaced.
pub new-IsLive : (seed : ℕ) → seed < 2 ^ 64 → IsLive (new_deterministic_rng seed)
unfolding new_deterministic_rng
new-IsLive seed lt = ground arith

-- Drawing a number, with any argument, keeps the generator live: its state stays within 64 bits and
-- never becomes 0, the state that would repeat for ever.
pub next_int-IsLive : (n : ℤ) (r : DeterministicRng) → IsLive r → IsLive (next_int n r).1
unfolding next_int next_uint64
next_int-IsLive (negsuc n) r h = h
next_int-IsLive (pos n) r h =
    ground (arith, xorshift-lt r.state h.in_u64, xorshift_nonzero r.state h.in_u64)

-- A number drawn below a positive bound is not negative and less than the bound; for any other bound
-- it is 0, and the state stays.
pub next_int_range :
    (n : ℤ) (r : DeterministicRng)
    → (pos 0 ≤ℤ (next_int n r).0)
      × (ltb_ℤ (pos 0) n ≡ true → ltb_ℤ (next_int n r).0 n ≡ true)
      × (ltb_ℤ (pos 0) n ≡ false → next_int n r ≡ (pos 0, r))
unfolding next_int next_uint64
next_int_range (negsuc n) r = ground arith
next_int_range (pos n) r = ground arith
