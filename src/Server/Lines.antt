-- ===== src/Server/Lines.antt =====
-- ssh_server.go: `splitCRLF`, and the scanner of the standard library that calls it. What the player
-- sends arrives in chunks and then ends. A read that fails, and a hundred reads on end that bring
-- nothing, with which the scanner stops too, are left out.
use terminal_wrestling_leagu.Common.{
  ℕ, zero, suc, ◌+◌, Bool, true, false, ◌&&◌, ◌||◌, Option, none, some, List, [], ◌∷◌, ◌++◌, ◌==◌,
  if◌then◌else◌, length, take, drop, leb, ◌-◌,
}
use terminal_wrestling_leagu.Common.Text.{Str, is_empty}

-- How far the scanner goes on, and the line; `none` asks for more.
pub record Split : Type 0 where
  pub advance : ℕ
  pub token : Option Str

abbrev pub is_break : ℕ → Bool
is_break b = b == 10 || b == 13

abbrev pub starts_newline : Str → Bool
starts_newline [] = false
starts_newline (b ∷ s) = b == 10

abbrev pub prepend : ℕ → Option (Str × ℕ) → Option (Str × ℕ)
prepend b none = none
prepend b (some (t, n)) = some (b ∷ t, n)

-- The loop: what stands before the first line break, and the size of the break.
unfoldable pub find_end : Str → Option (Str × ℕ)
find_end [] = none
find_end (b ∷ s) =
    let later = find_end s in
    if is_break b then some ([], if b == 13 && starts_newline s then 2 else 1) else prepend b later

unfoldable pub split_crlf : Str → Bool → Split
split_crlf text at_eof = elim (find_end text) [
  | some (t, n) ↦ record { advance = length t + n; token = some t }
  | none ↦
      if at_eof && (if is_empty text then false else true)
      then record { advance = length text; token = some text }
      else record { advance = 0; token = none }
]

-- What a scanner delivers, and whether its `Err` is `ErrTooLong` then.
pub record Scanned : Type 0 where
  pub lines : List Str
  pub too_long : Bool

-- `bufio.MaxScanTokenSize`.
abbrev pub max_token_size : ℕ
max_token_size = 65536

abbrev pub deliver : Str → Scanned → Scanned
deliver line rest = record rest { lines = line ∷ rest.lines }

-- What a read leaves for the next ones.
abbrev pub left_over : Str → List Str → List Str
left_over [] chunks = chunks
left_over (b ∷ s) chunks = (b ∷ s) ∷ chunks

-- The scanner: it splits what it has, and reads when there is no line in it. A buffer that is full
-- without a line in it is the end; a read takes no more than there is room for.
unfoldable pub scan : ℕ → ℕ → Str → List Str → Bool → Scanned
scan limit zero text chunks at_eof = record { lines = []; too_long = false }
scan limit (suc fuel) text chunks at_eof =
    let split = split_crlf text at_eof in
    let room = limit - length text in
    let next = scan limit fuel (drop split.advance text) chunks at_eof in
    let ended = scan limit fuel text [] true in
    let read : Scanned = elim chunks [
      | [] ↦ ended
      | c ∷ cs ↦ scan limit fuel (text ++ take room c) (left_over (drop room c) cs) false
    ] in
    elim split.token [
      | some line ↦ deliver line next
      | none ↦
          if at_eof
          then record { lines = []; too_long = false }
          else if leb limit (length text)
          then record { lines = []; too_long = true }
          else read
    ]

-- The steps that the scanner takes at most.
abbrev pub steps_for : List Str → ℕ
steps_for [] = 2
steps_for (c ∷ cs) = length c + length c + 1 + steps_for cs

unfoldable pub scan_lines : List Str → Scanned
scan_lines chunks = scan max_token_size (steps_for chunks) [] chunks false
