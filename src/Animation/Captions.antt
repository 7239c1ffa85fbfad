-- ===== src/Animation/Captions.antt =====
-- renderer.go: the words of a frame.
use terminal_wrestling_leagu.Common.{
  ℕ, suc, ◌+◌, ◌||◌, List, [], ◌∷◌, ◌++◌, leb, if◌then◌else◌, ◌==◌,
}
use terminal_wrestling_leagu.Common.Int.{pos_part}
use terminal_wrestling_leagu.Common.Text.{Str, bytes, str_eq, is_empty}
use terminal_wrestling_leagu.Common.Format.{to_lower, trim_space, decimal}
use terminal_wrestling_leagu.Combat.Types.{Event, EventType, event_damage_applied, TurnResult}
use terminal_wrestling_leagu.Animation.{TurnVfx}
use terminal_wrestling_leagu.Animation.Rows.{blank_row, overlay_center}

unfoldable pub impact_word : ℕ → Str
impact_word total_damage =
    if leb 28 total_damage
    then bytes "!!! KRAK !!!"
    else if leb 18 total_damage
    then bytes "!! BOOM !!"
    else if leb 10 total_damage
    then bytes "! THUD !"
    else bytes "* TAP *"

-- The marker over the arena; it may be empty.
unfoldable pub fx_marker : Str → TurnVfx → Str
fx_marker phase_name vfx =
    let phase = to_lower (trim_space phase_name) in
    if str_eq phase (bytes "impact")
    then if vfx.hit_count == 0 then [] else impact_word vfx.total_damage
    else if str_eq phase (bytes "hitstop")
    then bytes "<<< HITSTOP >>>"
    else if str_eq phase (bytes "knockback")
    then if vfx.left_hit || (vfx.right_hit || vfx.knockback_hit)
      then bytes "<< KNOCKBACK >>"
      else []
    else if str_eq phase (bytes "stunned")
    then if vfx.stunned then bytes "** STUN **" else []
    else []

unfoldable pub compose_fx_overlay_line : ℕ → Str → TurnVfx → Str
compose_fx_overlay_line width phase_name vfx =
    let marker = fx_marker phase_name vfx in
    if is_empty marker then blank_row width else overlay_center (blank_row width) marker

unfoldable pub phase_effect_caption : Str → TurnVfx → Str
phase_effect_caption phase_name vfx =
    let phase = to_lower (trim_space phase_name) in
    if str_eq phase (bytes "impact")
    then if vfx.hit_count == 0
      then bytes "FX: whiff"
      else if vfx.combo_active
      then bytes "FX: combo chain (" ++ (decimal vfx.hit_count ++ bytes " hits)")
      else bytes "FX: impact x"
        ++ (decimal vfx.hit_count ++ (bytes " (" ++ (decimal vfx.total_damage ++ bytes " dmg)")))
    else if str_eq phase (bytes "hitstop")
    then bytes "FX: freeze frame"
    else if str_eq phase (bytes "knockback")
    then bytes "FX: knockback push"
    else if str_eq phase (bytes "stunned")
    then bytes "FX: dizzy state"
    else []

-- The hits and the damage that `summarizeTurn` counts.
pub record Blows : Type 0 where
  pub hits : ℕ
  pub total_damage : ℕ

unfoldable pub note_blow : EventType → Event → Blows → Blows
note_blow event_damage_applied e blows =
    if e.success
    then record { hits = suc blows.hits; total_damage = blows.total_damage + pos_part e.value }
    else blows
note_blow _ e blows = blows

unfoldable pub count_blows : List Event → Blows → Blows
count_blows [] blows = blows
count_blows (e ∷ events) blows = count_blows events (note_blow e.kind e blows)

abbrev exchange_summary : Blows → Str
exchange_summary blows =
    if blows.hits == 0
    then bytes "Exchange: no clean hit"
    else if blows.hits == 1
    then bytes "Exchange: clean hit (" ++ (decimal blows.total_damage ++ bytes " dmg)")
    else bytes "Exchange: traded blows (" ++ (decimal blows.total_damage ++ bytes " dmg total)")

unfoldable pub summarize_turn : TurnResult → Str
summarize_turn result =
    let outcome = result.next.outcome in
    if outcome.finished
    then if is_empty outcome.method
      then bytes "Outcome: finished"
      else bytes "Outcome: " ++ outcome.method
    else exchange_summary (count_blows result.events (record { hits = 0; total_damage = 0 }))
