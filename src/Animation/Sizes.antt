-- ===== src/Animation/Sizes.antt =====
-- How wide the rows are, and how many lines and frames there are.
use terminal_wrestling_leagu.Common.{
  ℕ, zero, suc, ◌+◌, ◌-◌, ◌*◌, ◌/◌, ◌≡◌, refl, ap, ◌∙◌, arith, [], ◌∷◌, ◌++◌, All, length,
  length-append, if◌then◌else◌, if_keeps, ltb,
}
use terminal_wrestling_leagu.Common.Text.{Str, bytes, is_empty}
use terminal_wrestling_leagu.Common.Format.{repeat, length-repeat}
use terminal_wrestling_leagu.Animation.{CinematicPhase, TurnVfx}
use terminal_wrestling_leagu.Animation.Rows.{
  set_at, stamp, blank_row, compose_arena_line, overlay_center, health_bar,
}
use terminal_wrestling_leagu.Animation.Captions.{compose_fx_overlay_line, fx_marker}
use terminal_wrestling_leagu.Animation.Keyframes.{walled, arena_lines}

length-set_at : (i r : ℕ) (row : Str) → length (set_at i r row) ≡ length row
unfolding set_at
length-set_at i r [] = refl
length-set_at zero r (c ∷ row) = refl
length-set_at (suc i) r (c ∷ row) = ap suc (length-set_at i r row)

length-stamp : (x : ℕ) (sprite row : Str) → length (stamp x sprite row) ≡ length row
unfolding stamp
length-stamp x [] row = refl
length-stamp x (r ∷ sprite) row =
    length-stamp (x + 1) sprite (set_at x r row) ∙ length-set_at x r row

length-blank_row : (width : ℕ) → length (blank_row width) ≡ width
unfolding blank_row
length-blank_row width = length-set_at (width / 2) 58 (repeat 32 width) ∙ length-repeat 32 width

length-compose_arena_line :
    (width left_x : ℕ) (left : Str) (right_x : ℕ) (right : Str)
    → length (compose_arena_line width left_x left right_x right) ≡ width
unfolding compose_arena_line
length-compose_arena_line width left_x left right_x right =
    length-stamp right_x right _ ∙ length-stamp left_x left _ ∙ length-blank_row width

length-overlay :
    (width : ℕ) (name : Str) (vfx : TurnVfx)
    → length (compose_fx_overlay_line width name vfx) ≡ width
unfolding compose_fx_overlay_line overlay_center
length-overlay width name vfx =
    if_keeps (λ (row : Str). length row ≡ width) (is_empty (fx_marker name vfx)) _ _
      (length-blank_row width)
      (length-stamp _ (fx_marker name vfx) (blank_row width) ∙ length-blank_row width)

length-walled :
    (wall width : ℕ) (row : Str) → length row ≡ width → length (walled wall row) ≡ width + 2
length-walled wall width row h = omega (arith, length-append row (wall ∷ []))

-- Whatever the phase and the poses, the arena is seven lines of 60 characters: no sprite, marker or
-- place makes a line longer or shorter.
pub length-arena_lines :
    (turn : ℕ) (phase : CinematicPhase) (vfx : TurnVfx)
    → (length (arena_lines turn phase vfx) ≡ 7)
      × All (λ (line : Str). length line ≡ 60) (arena_lines turn phase vfx)
unfolding arena_lines
length-arena_lines turn phase vfx =
    let dashes = length-walled 43 58 _ (length-repeat 45 58) in
    let floor = length-walled 124 58 _ (length-repeat 95 58) in
    let overlay = length-walled 124 58 _ (length-overlay 58 phase.name vfx) in
    (
      refl,
      (
        dashes,
        (
          length-walled 124 58 _ (length-compose_arena_line 58 _ _ _ _),
          (
            length-walled 124 58 _ (length-compose_arena_line 58 _ _ _ _),
            (
              overlay,
              (
                length-walled 124 58 _ (length-compose_arena_line 58 _ _ _ _),
                (floor, (dashes, tt)),
              ),
            ),
          ),
        ),
      ),
    )

-- The health bar is 16 characters wide for any number of points.
length-health_bar : (hp : ℕ) → length (health_bar hp) ≡ 16
unfolding health_bar bytes
length-health_bar hp =
    let cut : ℕ = if ltb 100 hp then 100 else hp in
    let fill = cut * 14 / 100 in
    ground (
      arith,
      length-repeat 35 fill,
      length-repeat 46 (14 - fill),
      length-append (repeat 35 fill) (repeat 46 (14 - fill) ++ bytes "]"),
      length-append (repeat 46 (14 - fill)) (bytes "]"),
    )
