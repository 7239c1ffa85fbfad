-- ===== src/Server/Scanning.antt =====
-- ssh_server.go: what one step of the scanner does.
use terminal_wrestling_leagu.Common.{
  ℕ, zero, suc, ◌+◌, ◌≡◌, refl, ap, Bool, true, false, none, some, List, [], ◌∷◌, ◌++◌, length,
  take, drop, leb, ◌-◌,
}
use terminal_wrestling_leagu.Common.Text.{Str}
use terminal_wrestling_leagu.Server.Lines.{Split, find_end, split_crlf, deliver, left_over, scan}
use terminal_wrestling_leagu.Server.Reads.{passed, keep}

split_line :
    (text : Str) (at_eof : Bool) (t : Str) (n : ℕ)
    → find_end text ≡ some (t, n)
    → split_crlf text at_eof ≡ record { advance = length t + n; token = some t }
unfolding split_crlf
split_line text at_eof t n e = rw (e, split_crlf) refl

split_more :
    (text : Str)
    → find_end text ≡ none
    → split_crlf text false ≡ record { advance = 0; token = none }
unfolding split_crlf
split_more text e = rw (e, split_crlf) refl

split_last :
    (b : ℕ) (s : Str)
    → find_end (b ∷ s) ≡ none
    → split_crlf (b ∷ s) true ≡ record { advance = length (b ∷ s); token = some (b ∷ s) }
unfolding split_crlf
split_last b s e = rw (e, split_crlf) refl

drop_all : (s : Str) → drop (length s) s ≡ []
drop_all [] = refl
drop_all (b ∷ s) = drop_all s

module _ (limit : ℕ) where
  module _ (fuel : ℕ) (text : Str) (chunks : List Str) (at_eof : Bool) where
    scan_token :
        (t : Str) (a : ℕ)
        → split_crlf text at_eof ≡ record { advance = a; token = some t }
        → scan limit (suc fuel) text chunks at_eof
          ≡ deliver t (scan limit fuel (drop a text) chunks at_eof)
    unfolding scan
    scan_token t a e =
        rw (e, scan)
          (ap (λ (p : Split). deliver t (scan limit fuel (drop p.advance text) chunks at_eof)) e)

    pub scan_line :
        (t : Str) (n : ℕ)
        → find_end text ≡ some (t, n)
        → scan limit (suc fuel) text chunks at_eof
          ≡ deliver t (scan limit fuel (drop (length t + n) text) chunks at_eof)
    scan_line t n e = scan_token t (length t + n) (split_line text at_eof t n e)

  module _ (fuel : ℕ) (text : Str) where
    pub scan_full :
        (chunks : List Str)
        → find_end text ≡ none
        → leb limit (length text) ≡ true
        → scan limit (suc fuel) text chunks false ≡ record { lines = []; too_long = true }
    unfolding scan
    scan_full chunks e full = rw (split_more text e, scan) (simp full refl)

    pub scan_end :
        find_end text ≡ none
        → leb limit (length text) ≡ false
        → scan limit (suc fuel) text [] false ≡ scan limit fuel text [] true
    unfolding scan
    scan_end e room = rw (split_more text e, scan) (simp room refl)

    pub scan_more :
        (c : Str) (cs : List Str)
        → find_end text ≡ none
        → leb limit (length text) ≡ false
        → scan limit (suc fuel) text (c ∷ cs) false
          ≡ scan limit fuel
              (text ++ take (limit - length text) c)
              (left_over (drop (limit - length text) c) cs)
              false
    unfolding scan
    scan_more c cs e room = rw (split_more text e, scan) (simp room refl)

  scan_nothing : (fuel : ℕ) → scan limit fuel [] [] true ≡ record { lines = []; too_long = false }
  unfolding scan split_crlf find_end
  scan_nothing zero = refl
  scan_nothing (suc fuel) = refl

  pub scan_rest :
      (fuel : ℕ) (text : Str)
      → find_end text ≡ none
      → passed (scan limit (suc fuel) text [] true)
        ≡ keep text (record { lines = []; too_long = false })
  scan_rest fuel [] e = ap passed (scan_nothing (suc fuel))
  scan_rest fuel (b ∷ s) e =
      rw (scan_token fuel (b ∷ s) [] true (b ∷ s) (length (b ∷ s)) (split_last b s e))
        (rw (drop_all s) (rw (scan_nothing fuel) refl))
