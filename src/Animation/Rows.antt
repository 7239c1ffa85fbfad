-- ===== src/Animation/Rows.antt =====
-- renderer.go: the rows of the arena, the health bar and the handle. A position is a number: the
-- caller's clamp keeps it above 0.
use terminal_wrestling_leagu.Common.{
  ℕ, zero, suc, ◌+◌, ◌-◌, ◌*◌, ◌/◌, [], ◌∷◌, ◌++◌, ltb, leb, if◌then◌else◌, length, take, ◌==◌,
}
use terminal_wrestling_leagu.Common.Text.{Str, bytes}
use terminal_wrestling_leagu.Common.Format.{repeat}
use terminal_wrestling_leagu.Combat.Types.{hp_max}

abbrev pub arena_width : ℕ
arena_width = 58

abbrev pub hp_bar_size : ℕ
hp_bar_size = 14

-- A write at an index, which a row that is too short leaves out.
unfoldable pub set_at : ℕ → ℕ → Str → Str
set_at i r [] = []
set_at zero r (c ∷ row) = r ∷ row
set_at (suc i) r (c ∷ row) = c ∷ set_at i r row

unfoldable pub stamp : ℕ → Str → Str → Str
stamp x [] row = row
stamp x (r ∷ sprite) row = stamp (x + 1) sprite (set_at x r row)

-- The empty row: spaces, and a colon in the middle.
unfoldable pub blank_row : ℕ → Str
blank_row width = set_at (width / 2) 58 (repeat 32 width)

unfoldable pub compose_arena_line : ℕ → ℕ → Str → ℕ → Str → Str
compose_arena_line width left_x left right_x right =
    stamp right_x right (stamp left_x left (blank_row width))

-- A marker that is longer than its row starts at the left end, and an empty one changes nothing.
unfoldable pub overlay_center : Str → Str → Str
overlay_center base marker = stamp ((length base - length marker) / 2) marker base

-- The points are never negative, so that only the upper bound cuts.
unfoldable pub health_bar : ℕ → Str
health_bar hp =
    let cut : ℕ = if ltb hp_max hp then hp_max else hp in
    let fill = cut * hp_bar_size / hp_max in
    bytes "[" ++ (repeat 35 fill ++ (repeat 46 (hp_bar_size - fill) ++ bytes "]"))

unfoldable pub fit_handle : Str → ℕ → Str
fit_handle handle max =
    if max == 0
    then []
    else if leb (length handle) max
    then handle
    else if max == 1
    then take 1 handle
    else take (max - 1) handle ++ bytes "~"
