-- ===== src/Storage/ReadBack.antt =====
-- internal/storage/repositories.go: `GetMatchReplay` reads the rows of a replay back.
use terminal_wrestling_leagu.Common.{
  ℕ, zero, suc, ◌+◌, ◌/◌, ◌%◌, ◌<◌, ◌^◌, ◌≡◌, refl, true, false, some, [], ◌∷◌, ◌++◌, arith,
  Bool-cases, inl, inr, ltb, lt→ltb,
}
use terminal_wrestling_leagu.Common.Format.{decimal, digits, value-decimal}
use terminal_wrestling_leagu.Common.Text.{Str, is_empty}
use terminal_wrestling_leagu.Storage.Replays.{parse_uint, all_digits}

all_digits-append :
    (s t : Str) → all_digits s ≡ true → all_digits t ≡ true → all_digits (s ++ t) ≡ true
unfolding all_digits
all_digits-append [] t h h' = h'
all_digits-append (b ∷ s) t h h' = ground (arith, all_digits-append s t)

all_digits-digits : (fuel n : ℕ) → all_digits (digits fuel n) ≡ true
unfolding digits all_digits
all_digits-digits zero n = refl
all_digits-digits (suc fuel) n = elim (Bool-cases (ltb n 10)) [
  | inl small ↦ simp small (ground arith)
  | inr large ↦ simp large (
      all_digits-append (digits fuel (n / 10)) ((48 + n % 10) ∷ [])
        (all_digits-digits fuel (n / 10)) (ground arith))
]

-- A text ends with a digit.
is_empty-append : (s : Str) (b : ℕ) → is_empty (s ++ (b ∷ [])) ≡ false
is_empty-append [] b = refl
is_empty-append (c ∷ s) b = refl

is_empty-decimal : (n : ℕ) → is_empty (decimal n) ≡ false
unfolding decimal digits
is_empty-decimal n = elim (Bool-cases (ltb n 10)) [
  | inl small ↦ simp small refl
  | inr large ↦ simp large (is_empty-append (digits n (n / 10)) (48 + n % 10))
]

all_digits-decimal : (n : ℕ) → all_digits (decimal n) ≡ true
unfolding decimal
all_digits-decimal n = all_digits-digits (suc n) n

-- What `FormatUint` writes, `ParseUint` reads.
pub parse_uint-decimal : (n : ℕ) → n < 2 ^ 64 → parse_uint (decimal n) ≡ some n
unfolding parse_uint
parse_uint-decimal n h =
    simp (is_empty-decimal n, all_digits-decimal n, value-decimal n) (rw (lt→ltb n (2 ^ 64) h) refl)
