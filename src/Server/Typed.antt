-- ===== src/Server/Typed.antt =====
-- ssh_server.go: the words that `canonicalTutorialCommand` finds in a line.
use terminal_wrestling_leagu.Common.{
  ℕ, ◌≡◌, refl, sym, ap, ◌∙◌, arith, Bool, true, false, ◌&&◌, List, [], ◌∷◌, ◌++◌, All,
  append_assoc, append-nil, Bool-cases, inl, inr, if◌then◌else◌, ◌↔◌,
}
use terminal_wrestling_leagu.Common.Text.{Str, bytes, str_eq, str_eq_iff, is_empty}
use terminal_wrestling_leagu.Common.Format.{is_space, fields_from, fields, join, to_lower}
use terminal_wrestling_leagu.Server.Input.{sanitize_input_line, canonical_tutorial_command}

-- The words of a line in lower case, without control sequences.
abbrev pub said : Str → List Str
said raw = fields (to_lower (sanitize_input_line raw))

abbrev pub words_eq : List Str → List Str → Bool
words_eq [] [] = true
words_eq [] (t ∷ ts) = false
words_eq (s ∷ ss) [] = false
words_eq (s ∷ ss) (t ∷ ts) = str_eq s t && words_eq ss ts

words_eq_iff : (ss ts : List Str) → (words_eq ss ts ≡ true) ↔ (ss ≡ ts)
words_eq_iff [] [] = ground arith
words_eq_iff [] (t ∷ ts) = ground arith
words_eq_iff (s ∷ ss) [] = ground arith
words_eq_iff (s ∷ ss) (t ∷ ts) = ground (arith, str_eq_iff s t, words_eq_iff ss ts)

-- The words with one space between them.
abbrev pub line_of : List Str → Str
line_of = join (bytes " ")

abbrev pub is_solid : Str → Bool
is_solid [] = true
is_solid (b ∷ s) = if is_space b then false else is_solid s

-- A word has a byte and no white space.
abbrev pub IsWord : Str → Type 0
IsWord s = (is_empty s ≡ false) × (is_solid s ≡ true)

fields_from-word :
    (acc w s : Str) → is_solid w ≡ true → fields_from acc (w ++ s) ≡ fields_from (acc ++ w) s
unfolding fields_from
fields_from-word acc [] s h = ap (λ a. fields_from a s) (sym (append-nil acc))
fields_from-word acc (b ∷ w) s h = elim (Bool-cases (is_space b)) [
  | inl blank ↦ absurd (ground arith)
  | inr solid ↦ simp solid (
      fields_from-word (acc ++ (b ∷ [])) w s (ground arith)
      ∙ ap (λ a. fields_from a s) (append_assoc acc (b ∷ []) w))
]

fields-join : (ws : List Str) → All IsWord ws → fields (line_of ws) ≡ ws
unfolding join fields fields_from bytes
fields-join [] h = refl
fields-join (w ∷ []) ((filled, solid), h) =
    ap fields (sym (append-nil w)) ∙ fields_from-word [] w [] solid ∙ simp filled refl
fields-join (w ∷ w' ∷ ws) ((filled, solid), h) =
    fields_from-word [] w (32 ∷ line_of (w' ∷ ws)) solid
    ∙ simp filled (ap (◌∷◌ w) (fields-join (w' ∷ ws) h))

solid_snoc :
    (s : Str) (b : ℕ) → is_solid s ≡ true → is_space b ≡ false → is_solid (s ++ (b ∷ [])) ≡ true
solid_snoc [] b h e = simp e refl
solid_snoc (c ∷ s) b h e = elim (Bool-cases (is_space c)) [
  | inl blank ↦ absurd (ground arith)
  | inr solid ↦ simp solid (solid_snoc s b (ground arith) e)
]

fields_from-IsWord : (acc s : Str) → is_solid acc ≡ true → All IsWord (fields_from acc s)
unfolding fields_from
fields_from-IsWord acc [] h = elim (Bool-cases (is_empty acc)) [
  | inl empty ↦ simp empty tt
  | inr filled ↦ simp filled ((refl, h), tt)
]
fields_from-IsWord acc (b ∷ s) h = elim (Bool-cases (is_space b)) [
  | inr solid ↦ simp solid (fields_from-IsWord (acc ++ (b ∷ [])) s (solid_snoc acc b h solid))
  | inl blank ↦ elim (Bool-cases (is_empty acc)) [
    | inl empty ↦ simp (blank, empty) (fields_from-IsWord [] s refl)
    | inr filled ↦ simp (blank, filled) ((refl, h), fields_from-IsWord [] s refl)
  ]
]

said-IsWord : (raw : Str) → All IsWord (said raw)
unfolding fields
said-IsWord raw = fields_from-IsWord [] (to_lower (sanitize_input_line raw)) refl

line_of-eq :
    (ss ts : List Str)
    → All IsWord ss
    → All IsWord ts
    → str_eq (line_of ss) (line_of ts) ≡ words_eq ss ts
line_of-eq ss ts hs ht =
    let back : line_of ss ≡ line_of ts → ss ≡ ts =
      λ e. sym (fields-join ss hs) ∙ ap fields e ∙ fields-join ts ht in
    elim (Bool-cases (words_eq ss ts)) [
      | inl same ↦
          (str_eq_iff (line_of ss) (line_of ts)).1 (ap line_of ((words_eq_iff ss ts).0 same))
          ∙ sym same
      | inr differ ↦ elim (Bool-cases (str_eq (line_of ss) (line_of ts))) [
        | inr no_match ↦ no_match ∙ sym differ
        | inl match ↦
            let both =
              (words_eq_iff ss ts).1 (back ((str_eq_iff (line_of ss) (line_of ts)).0 match)) in
            cc
      ]
    ]

blank_line : (s : Str) → (if is_empty s then [] else line_of (fields s)) ≡ line_of (fields s)
unfolding fields fields_from join
blank_line [] = refl
blank_line (b ∷ s) = refl

canonical-line_of : (raw : Str) → canonical_tutorial_command raw ≡ line_of (said raw)
unfolding canonical_tutorial_command
canonical-line_of raw = blank_line (to_lower (sanitize_input_line raw))

-- What a line is compared with is compared with its words.
pub canonical_says :
    (raw : Str) (words : List Str)
    → All IsWord words
    → str_eq (canonical_tutorial_command raw) (line_of words) ≡ words_eq (said raw) words
canonical_says raw words h =
    ap (λ line. str_eq line (line_of words)) (canonical-line_of raw)
    ∙ line_of-eq (said raw) words (said-IsWord raw) h
