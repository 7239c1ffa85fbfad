-- ===== src/Server/Breaks.antt =====
-- Where the lines of a text end.
use terminal_wrestling_leagu.Common.{
  ℕ, suc, ◌+◌, ◌≤◌, ◌≡◌, refl, sym, ap, ◌∙◌, arith, true, ◌&&◌, none, some, List, [], ◌∷◌, ◌++◌,
  ◌==◌, append_assoc, append-nil, if◌then◌else◌, length, drop, subst, Bool-cases, Option-cases, inl,
  inr,
}
use mathlib.Core.Option.{some-injective}
use terminal_wrestling_leagu.Common.Text.{Str, is_empty}
use terminal_wrestling_leagu.Server.Lines.{is_break, starts_newline, find_end}

-- A line in front of others, if it is not empty.
abbrev pub add_line : Str → List Str → List Str
add_line line lines = if is_empty line then lines else line ∷ lines

-- The lines of a text that are not empty, the first of which has begun already.
unfoldable pub lines_from : Str → Str → List Str
lines_from word [] = add_line word []
lines_from word (b ∷ s) =
    let next = lines_from [] s in
    let more = lines_from (word ++ (b ∷ [])) s in if is_break b then add_line word next else more

abbrev pub flat : List Str → Str
flat [] = []
flat (c ∷ cs) = c ++ flat cs

abbrev pub filled : List Str → List Str
filled [] = []
filled (line ∷ lines) = add_line line (filled lines)

-- Where a line ends, and what is left.
pub record Ends (text : Str) (t : Str) (n : ℕ) : Type 0 where
  pub shorter : length (drop (length t + n) text) + 1 ≤ length text
  pub inside : length t + 1 ≤ length text
  pub lines :
      (word later : Str)
      → lines_from word (text ++ later)
        ≡ add_line (word ++ t) (lines_from [] (drop (length t + n) text ++ later))

double_break :
    (b : ℕ) (s : Str) → is_break b ≡ true → (b == 13 && starts_newline s) ≡ true → Ends (b ∷ s) [] 2
unfolding lines_from
double_break b [] e d = absurd (ground arith)
double_break b (c ∷ s) e d =
    let second : is_break c ≡ true = ground arith in
    record {
      shorter = omega arith;
      inside = omega arith;
      lines = λ word later. simp (e, append-nil word) (simp second refl);
    }

break-Ends :
    (b : ℕ) (s : Str)
    → is_break b ≡ true
    → Ends (b ∷ s) [] (if b == 13 && starts_newline s then 2 else 1)
unfolding lines_from
break-Ends b s e = elim (Bool-cases (b == 13 && starts_newline s)) [
  | inl double ↦ simp double (double_break b s e double)
  | inr single ↦ simp single (record {
    shorter = omega arith;
    inside = omega arith;
    lines = λ word later. simp (e, append-nil word) refl;
  })
]

drop_cons :
    (b : ℕ) (t : Str) (n : ℕ) (s : Str) → drop (length (b ∷ t) + n) (b ∷ s) ≡ drop (length t + n) s
drop_cons b t n s =
    let e : length (b ∷ t) + n ≡ suc (length t + n) = omega arith in ap (λ k. drop k (b ∷ s)) e

pub find_end-Ends : (text : Str) (t : Str) (n : ℕ) → find_end text ≡ some (t, n) → Ends text t n
unfolding find_end lines_from
find_end-Ends [] t n h = cc
find_end-Ends (b ∷ s) t n h = elim (Bool-cases (is_break b)) [
  | inl ends ↦
      let h' : some ([], if b == 13 && starts_newline s then 2 else 1) ≡ some (t, n) =
        simp ends at h in
      subst (λ (p : Str × ℕ). Ends (b ∷ s) p.0 p.1) (some-injective _ _ h') (break-Ends b s ends)
  | inr goes ↦ elim (Option-cases (find_end s)) [
    | inl none_left ↦ cc (simp (goes, none_left) at h)
    | inr (p, e) ↦
        let h' : some (b ∷ p.0, p.1) ≡ some (t, n) = simp (goes, e) at h in
        let i = find_end-Ends s p.0 p.1 e in
        subst (λ (q : Str × ℕ). Ends (b ∷ s) q.0 q.1) (some-injective _ _ h')
          (record {
            shorter = rw (drop_cons b p.0 p.1 s) (omega (arith, i.shorter));
            inside = omega (arith, i.inside);
            lines = λ word later. rw (drop_cons b p.0 p.1 s) (
                simp goes (
                  i.lines (word ++ (b ∷ [])) later
                  ∙ ap (λ w. add_line w (lines_from [] (drop (length p.0 + p.1) s ++ later)))
                      (append_assoc word (b ∷ []) p.0)));
          })
  ]
]

pub find_end-none :
    (text word later : Str)
    → find_end text ≡ none
    → lines_from word (text ++ later) ≡ lines_from (word ++ text) later
unfolding find_end lines_from
find_end-none [] word later h = ap (λ w. lines_from w later) (sym (append-nil word))
find_end-none (b ∷ s) word later h = elim (Bool-cases (is_break b)) [
  | inl ends ↦ cc (simp ends at h)
  | inr goes ↦ elim (Option-cases (find_end s)) [
    | inr (p, e) ↦ cc (simp (goes, e) at h)
    | inl e ↦ simp goes (
        find_end-none s (word ++ (b ∷ [])) later e
        ∙ ap (λ w. lines_from w later) (append_assoc word (b ∷ []) s))
  ]
]
