-- ===== src/Server/Input.antt =====
-- ssh_server.go: `sanitizeInputLine` and `canonicalTutorialCommand`, on text whose bytes are valid
-- UTF-8.
use terminal_wrestling_leagu.Common.{Bool, false, ◌&&◌, ◌||◌, [], ◌∷◌, ◌==◌, ltb, if◌then◌else◌}
use terminal_wrestling_leagu.Common.Text.{Str, bytes, is_empty}
use terminal_wrestling_leagu.Common.Format.{to_lower, trim_space, fields, join, is_between}

-- Where a match of the pattern `\x1b\[[0-?]*[ -/]*[@-~]` stands: before the escape, after it, among
-- the parameters, or among the intermediate bytes.
pub data Escape : Type 0 where
  outside opened parameters intermediates : Escape

-- Whether a match starts here; the classes of bytes are disjoint, so that the pattern never goes back.
unfoldable pub matches_from : Escape → Str → Bool
matches_from stage [] = false
matches_from outside (b ∷ s) = b == 27 && matches_from opened s
matches_from opened (b ∷ s) = b == 91 && matches_from parameters s
matches_from parameters (b ∷ s) =
    let more = matches_from parameters s in
    let last = matches_from intermediates s in
    if is_between 48 63 b then more else if is_between 32 47 b then last else is_between 64 126 b
matches_from intermediates (b ∷ s) =
    let last = matches_from intermediates s in
    if is_between 32 47 b then last else is_between 64 126 b

-- `ReplaceAllString`: the matches are left out. Within a match the stage says what comes next.
unfoldable pub strip_ansi : Escape → Str → Str
strip_ansi stage [] = []
strip_ansi outside (b ∷ s) =
    let inside = strip_ansi opened s in
    let rest = strip_ansi outside s in if matches_from outside (b ∷ s) then inside else b ∷ rest
strip_ansi opened (b ∷ s) = strip_ansi parameters s
strip_ansi parameters (b ∷ s) =
    let more = strip_ansi parameters s in
    let rest = strip_ansi outside s in if is_between 32 63 b then more else rest
strip_ansi intermediates (b ∷ s) = strip_ansi parameters s

-- The mapping of the characters: a tab is a space, and control characters are dropped.
unfoldable pub map_controls : Str → Str
map_controls [] = []
map_controls (b ∷ s) =
    let rest = map_controls s in
    if b == 9 then 32 ∷ rest else if ltb b 32 || b == 127 then rest else b ∷ rest

unfoldable pub sanitize_input_line : Str → Str
sanitize_input_line line = trim_space (map_controls (strip_ansi outside line))

unfoldable pub canonical_tutorial_command : Str → Str
canonical_tutorial_command line =
    let cleaned = to_lower (sanitize_input_line line) in
    if is_empty cleaned then [] else join (bytes " ") (fields cleaned)
