-- ===== src/Engine/Rng.antt =====
-- internal/engine/rng.go: the xorshift64* generator. A `uint64` is a number below 2 ^ 64.
use Prim.Native.Nat.{bit_xor}
use terminal_wrestling_leagu.Common.{ℕ, ◌*◌, ◌/◌, ◌%◌, ◌^◌, ◌==◌, if◌then◌else◌}
use terminal_wrestling_leagu.Common.Int.{ℤ, pos, negsuc}
use terminal_wrestling_leagu.Combat.Types.{RandomSource}

pub record DeterministicRng : Type 0 where
  pub state : ℕ

unfoldable pub new_deterministic_rng : ℕ → DeterministicRng
new_deterministic_rng seed = record { state = if seed == 0 then 0x9e3779b97f4a7c15 else seed }

-- The three exclusive-or steps on the state.
unfoldable pub xorshift : ℕ → ℕ
xorshift s =
    let x = bit_xor s (s / 2 ^ 12) in
    let y = bit_xor x (x * 2 ^ 25 % 2 ^ 64) in bit_xor y (y / 2 ^ 27)

unfoldable pub next_uint64 : DeterministicRng → ℕ × DeterministicRng
unfolding xorshift
next_uint64 r = let x = xorshift r.state in (x * 2685821657736338717 % 2 ^ 64, record { state = x })

unfoldable pub next_int : ℤ → DeterministicRng → ℤ × DeterministicRng
next_int (negsuc n) r = (pos 0, r)
next_int (pos n) r = let (v, r') = next_uint64 r in if n == 0 then (pos 0, r) else (pos (v % n), r')

unfoldable pub snapshot : DeterministicRng → ℕ
snapshot r = r.state

abbrev pub deterministic : RandomSource DeterministicRng
deterministic = record { next_int = next_int; snapshot = snapshot }
