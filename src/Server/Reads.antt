-- ===== src/Server/Reads.antt =====
-- ssh_server.go: what a read adds to the buffer of the scanner, and the lines that fit into it.
use terminal_wrestling_leagu.Common.{
  ℕ, zero, suc, ◌+◌, ◌≤◌, ◌≡◌, refl, sym, ap, ◌∙◌, arith, true, false, List, [], ◌∷◌, ◌++◌,
  append_assoc, if◌then◌else◌, length, length-append, take, drop, leb, Bool-cases, inl, inr,
}
use terminal_wrestling_leagu.Common.Text.{Str}
use terminal_wrestling_leagu.Server.Lines.{is_break, Scanned, left_over, steps_for}
use terminal_wrestling_leagu.Server.Breaks.{add_line, lines_from, flat, filled}

take-drop : (n : ℕ) (s : Str) → take n s ++ drop n s ≡ s
take-drop zero s = refl
take-drop (suc n) [] = refl
take-drop (suc n) (b ∷ s) = ap (◌∷◌ b) (take-drop n s)

pub length-take : (n : ℕ) (s : Str) → length (take n s) ≤ n
length-take zero s = omega arith
length-take (suc n) [] = omega arith
length-take (suc n) (b ∷ s) = omega (arith, length-take n s)

flat-left_over : (s : Str) (cs : List Str) → flat (left_over s cs) ≡ s ++ flat cs
flat-left_over [] cs = refl
flat-left_over (b ∷ s) cs = refl

steps_for-left_over :
    (s : Str) (cs : List Str) → steps_for (left_over s cs) ≤ length s + length s + 1 + steps_for cs
steps_for-left_over [] cs = omega arith
steps_for-left_over (b ∷ s) cs = omega arith

-- A read with room for a byte or more takes a step off.
pub read_shrinks :
    (n : ℕ) (c : Str) (cs : List Str)
    → length (take (suc n) c) + steps_for (left_over (drop (suc n) c) cs) + 1 ≤ steps_for (c ∷ cs)
read_shrinks n [] cs = omega arith
read_shrinks zero (b ∷ []) cs = omega arith
read_shrinks zero (b ∷ b' ∷ c) cs = omega arith
read_shrinks (suc n) (b ∷ c) cs = omega (arith, read_shrinks n c cs)

pub read_flat :
    (n : ℕ) (text c : Str) (cs : List Str)
    → (text ++ take n c) ++ flat (left_over (drop n c) cs) ≡ text ++ flat (c ∷ cs)
read_flat n text c cs =
    append_assoc text (take n c) (flat (left_over (drop n c) cs))
    ∙ ap (◌++◌ text) (
        ap (◌++◌ (take n c)) (flat-left_over (drop n c) cs)
        ∙ sym (append_assoc (take n c) (drop n c) (flat cs))
        ∙ ap (λ s. s ++ flat cs) (take-drop n c))

-- What has been delivered, but for the empty lines.
abbrev pub passed : Scanned → Scanned
passed s = record s { lines = filled s.lines }

-- The lines up to the first one that is as long as the limit or longer, and whether there is such a
-- line.
abbrev pub within : ℕ → List Str → Scanned
within limit [] = record { lines = []; too_long = false }
within limit (line ∷ lines) =
    let rest = within limit lines in
    if leb limit (length line)
    then record { lines = []; too_long = true }
    else record rest { lines = line ∷ rest.lines }

abbrev pub keep : Str → Scanned → Scanned
keep line rest = record rest { lines = add_line line rest.lines }

module _ (limit : ℕ) (positive : 1 ≤ limit) where
  pub within-add :
      (t : Str) (lines : List Str)
      → length t + 1 ≤ limit
      → within limit (add_line t lines) ≡ keep t (within limit lines)
  within-add [] lines h = refl
  within-add (b ∷ t) lines h =
      let fits : leb limit (length (b ∷ t)) ≡ false = ground arith in simp fits refl

  pub within-long :
      (word s : Str)
      → limit ≤ length word
      → within limit (lines_from word s) ≡ record { lines = []; too_long = true }
  unfolding lines_from
  within-long [] s h = absurd (omega arith)
  within-long (w ∷ word) [] h =
      let long : leb limit (length (w ∷ word)) ≡ true = ground arith in simp long refl
  within-long (w ∷ word) (b ∷ s) h =
      let long : leb limit (length (w ∷ word)) ≡ true = ground arith in
      elim (Bool-cases (is_break b)) [
        | inl ends ↦ simp (ends, long) refl
        | inr goes ↦ simp goes (
            within-long ((w ∷ word) ++ (b ∷ [])) s
              (omega (arith, length-append (w ∷ word) (b ∷ []))))
      ]
