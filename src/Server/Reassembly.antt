-- ===== src/Server/Reassembly.antt =====
-- ssh_server.go: the lines that the scanner delivers do not depend on the chunks in which the text
-- arrives.
use terminal_wrestling_leagu.Common.{
  ℕ, ◌+◌, ◌≤◌, ◌≡◌, Bool, true, List, [], ◌++◌, if◌then◌else◌, length,
}
use terminal_wrestling_leagu.Common.Text.{Str}
use terminal_wrestling_leagu.Server.Lines.{scan, steps_for}
use terminal_wrestling_leagu.Server.Breaks.{lines_from, flat}
use terminal_wrestling_leagu.Server.Reads.{passed, within}

-- The steps that are left, and the room that the text takes.
abbrev pending : Bool → List Str → ℕ
pending at_eof chunks = if at_eof then 1 else steps_for chunks

abbrev taken : Bool → Str → ℕ
taken at_eof text = length text + (if at_eof then 1 else 0)

module _ (limit : ℕ) (positive : 1 ≤ limit) where
  -- What so many steps make of any text that the buffer has room for.
  abbrev Delivers : ℕ → Type 0
  Delivers fuel =
      (text : Str) (chunks : List Str) (at_eof : Bool)
      → (at_eof ≡ true → chunks ≡ [])
      → taken at_eof text ≤ limit
      → length text + pending at_eof chunks ≤ fuel
      → passed (scan limit fuel text chunks at_eof)
        ≡ within limit (lines_from [] (text ++ flat chunks))
