-- ===== src/Common/Text.antt =====
-- Go strings are sequences of bytes: lists of numbers, compared and ordered byte by byte.
use Prim.Native.Char.{code}
use Prim.Native.String.{String}
use terminal_wrestling_leagu.Common.{
  ℕ, ◌≡◌, refl, ◌≢◌, ◌↔◌, Bool, true, false, ◌&&◌, ◌||◌, not, List, [], ◌∷◌, arith, ltb, ◌==◌,
}

abbrev pub Str : Type 0
Str = List ℕ

-- A literal, which the program writes in ASCII only.
unfoldable pub bytes : String → Str
bytes String.[] = []
bytes (String.◌∷◌ c s) = code c ∷ bytes s

unfoldable pub str_eq : Str → Str → Bool
str_eq [] [] = true
str_eq [] (b ∷ t) = false
str_eq (a ∷ s) [] = false
str_eq (a ∷ s) (b ∷ t) = a == b && str_eq s t

-- Go's `<` on strings.
unfoldable pub str_lt : Str → Str → Bool
str_lt [] [] = false
str_lt [] (b ∷ t) = true
str_lt (a ∷ s) [] = false
str_lt (a ∷ s) (b ∷ t) = ltb a b || (a == b && str_lt s t)

abbrev pub is_empty : Str → Bool
is_empty [] = true
is_empty (a ∷ s) = false

pub str_eq_iff : (s t : Str) → (str_eq s t ≡ true) ↔ (s ≡ t)
unfolding str_eq
str_eq_iff [] [] = ground arith
str_eq_iff [] (b ∷ t) = ground arith
str_eq_iff (a ∷ s) [] = ground arith
str_eq_iff (a ∷ s) (b ∷ t) = ground (arith, str_eq_iff s t)

pub str_eq_refl : (s : Str) → str_eq s s ≡ true
str_eq_refl s = (str_eq_iff s s).1 refl

pub str_eq_comm : (s t : Str) → str_eq s t ≡ str_eq t s
str_eq_comm s t = ground (arith, str_eq_iff s t, str_eq_iff t s)

-- The order is total and strict: of two different strings exactly one comes first.
pub str_lt_total : (s t : Str) → s ≢ t → str_lt s t ≡ not (str_lt t s)
unfolding str_lt
str_lt_total [] [] h = absurd (h refl)
str_lt_total [] (b ∷ t) h = refl
str_lt_total (a ∷ s) [] h = refl
str_lt_total (a ∷ s) (b ∷ t) h = ground (arith, str_lt_total s t)

pub str_lt_ne : (s t : Str) → str_lt s t ≡ true → str_eq s t ≡ false
unfolding str_lt str_eq
str_lt_ne [] [] h = ground arith
str_lt_ne [] (b ∷ t) h = refl
str_lt_ne (a ∷ s) [] h = ground arith
str_lt_ne (a ∷ s) (b ∷ t) h = ground (arith, str_lt_ne s t)

pub str_eq-false : (s t : Str) → str_eq s t ≡ false → s ≢ t
str_eq-false s t e h = ground (arith, str_eq_iff s t)

pub str_lt_asymm : (s t : Str) → str_lt s t ≡ true → str_lt t s ≡ false
str_lt_asymm s t h = ground (arith, str_lt_total s t (str_eq-false s t (str_lt_ne s t h)))
