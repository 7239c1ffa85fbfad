-- ===== src/Common/Format.antt =====
-- The parts of Go's `fmt` and `strings` that the program writes text with, on bytes. Letters change
-- case as in ASCII, and white space is ASCII's.
use terminal_wrestling_leagu.Common.{
  ℕ, zero, suc, ◌+◌, ◌-◌, ◌*◌, ◌/◌, ◌%◌, ◌<◌, ◌≡◌, refl, ap, ◌∙◌, arith, Bool, true, false, ◌&&◌,
  ◌||◌, List, [], ◌∷◌, ◌++◌, ltb, leb, if◌then◌else◌, length, Bool-cases, inl, inr, ◌==◌,
}
use terminal_wrestling_leagu.Common.Text.{Str, str_eq, is_empty}

unfoldable pub repeat : ℕ → ℕ → Str
repeat c zero = []
repeat c (suc n) = c ∷ repeat c n

pub length-repeat : (c n : ℕ) → length (repeat c n) ≡ n
unfolding repeat
length-repeat c zero = refl
length-repeat c (suc n) = ap suc (length-repeat c n)

-- The decimal digits of a number, of at most so many digits.
unfoldable pub digits : ℕ → ℕ → Str
digits zero n = []
digits (suc fuel) n =
    let rest = digits fuel (n / 10) in
    if ltb n 10 then (48 + n) ∷ [] else rest ++ ((48 + n % 10) ∷ [])

-- `%d` of a number that is not negative.
unfoldable pub decimal : ℕ → Str
decimal n = digits (suc n) n

-- Reading digits back.
abbrev pub value_from : ℕ → Str → ℕ
value_from acc [] = acc
value_from acc (d ∷ ds) = value_from (acc * 10 + (d - 48)) ds

value-append :
    (acc : ℕ) (ds : Str) (d : ℕ)
    → value_from acc (ds ++ (d ∷ [])) ≡ value_from acc ds * 10 + (d - 48)
value-append acc [] d = refl
value-append acc (x ∷ ds) d = value-append (acc * 10 + (x - 48)) ds d

value-digits : (fuel n : ℕ) → n < fuel → value_from 0 (digits fuel n) ≡ n
unfolding digits
value-digits zero n h = absurd (omega arith)
value-digits (suc fuel) n h = elim (Bool-cases (ltb n 10)) [
  | inl small ↦ simp small (omega arith)
  | inr large ↦
      let rest : value_from 0 (digits fuel (n / 10)) ≡ n / 10 =
        value-digits fuel (n / 10) (ground arith) in
      simp large (value-append 0 (digits fuel (n / 10)) (48 + n % 10) ∙ simp rest (omega arith))
]

-- The fuel is enough: a number is read back from its digits.
pub value-decimal : (n : ℕ) → value_from 0 (decimal n) ≡ n
unfolding decimal
value-decimal n = value-digits (suc n) n (omega arith)

-- `%3d`.
unfoldable pub pad_left : ℕ → Str → Str
pad_left width s = repeat 32 (width - length s) ++ s

abbrev pub is_between : ℕ → ℕ → ℕ → Bool
is_between low high b = leb low b && leb b high

-- Whether the first bytes continue a character, the first within bounds and the others any.
unfoldable pub continues : ℕ → ℕ → ℕ → Str → Bool
continues zero low high s = true
continues (suc n) low high [] = false
continues (suc n) low high (b ∷ s) = is_between low high b && continues n 128 191 s

-- How many bytes follow the first one in the first character: UTF-8, where a byte that starts no
-- character stands alone.
unfoldable pub rune_tail : ℕ → Str → ℕ
rune_tail b s =
    if is_between 194 223 b && continues 1 128 191 s
    then 1
    else if b == 224 && continues 2 160 191 s
        || b == 237 && continues 2 128 159 s
        || (is_between 225 236 b || is_between 238 239 b) && continues 2 128 191 s
    then 2
    else if b == 240 && continues 3 144 191 s
        || is_between 241 243 b && continues 3 128 191 s
        || b == 244 && continues 3 128 143 s
    then 3
    else 0

-- The characters of a string whose first bytes are passed over.
unfoldable pub count_runes : ℕ → Str → ℕ
count_runes skip [] = 0
count_runes (suc skip) (b ∷ s) = count_runes skip s
count_runes zero (b ∷ s) = 1 + count_runes (rune_tail b s) s

unfoldable pub rune_count : Str → ℕ
rune_count s = count_runes 0 s

-- `%-18s`, which counts characters.
unfoldable pub pad_right : ℕ → Str → Str
pad_right width s = s ++ repeat 32 (width - rune_count s)

unfoldable pub to_upper : Str → Str
to_upper [] = []
to_upper (b ∷ s) = (if is_between 97 122 b then b - 32 else b) ∷ to_upper s

unfoldable pub to_lower : Str → Str
to_lower [] = []
to_lower (b ∷ s) = (if is_between 65 90 b then b + 32 else b) ∷ to_lower s

unfoldable pub equal_fold : Str → Str → Bool
equal_fold s t = str_eq (to_lower s) (to_lower t)

abbrev pub is_space : ℕ → Bool
is_space b = b == 32 || is_between 9 13 b

unfoldable pub trim_left : Str → Str
trim_left [] = []
trim_left (b ∷ s) = let rest = trim_left s in if is_space b then rest else b ∷ s

-- Without the white space at its end.
unfoldable pub trim_right : Str → Str
trim_right [] = []
trim_right (b ∷ s) = elim (trim_right s) [
  | [] ↦ if is_space b then [] else b ∷ []
  | c ∷ t ↦ b ∷ c ∷ t
]

unfoldable pub trim_space : Str → Str
trim_space s = trim_left (trim_right s)

-- The words of a text between white space, the first of which has begun already.
unfoldable pub fields_from : Str → Str → List Str
fields_from word [] = if is_empty word then [] else word ∷ []
fields_from word (b ∷ s) =
    let next = fields_from [] s in
    let more = fields_from (word ++ (b ∷ [])) s in
    if is_space b then if is_empty word then next else word ∷ next else more

unfoldable pub fields : Str → List Str
fields s = fields_from [] s

-- `strings.Join`.
unfoldable pub join : Str → List Str → Str
join sep [] = []
join sep (s ∷ []) = s
join sep (s ∷ t ∷ parts) = s ++ (sep ++ join sep (t ∷ parts))
