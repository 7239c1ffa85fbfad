-- ===== src/Animation/Effects.antt =====
-- renderer.go: `inferEffects` and `deriveTurnVFX`, loops over the events of a turn.
use terminal_wrestling_leagu.Common.{
  ◌+◌, Bool, true, false, ◌&&◌, ◌||◌, not, List, [], ◌∷◌, ◌++◌, ltb, leb, if◌then◌else◌,
}
use terminal_wrestling_leagu.Common.Int.{pos, pos_part, leb_ℤ}
use terminal_wrestling_leagu.Common.Text.{bytes, str_eq}
use terminal_wrestling_leagu.Common.Format.{equal_fold}
use terminal_wrestling_leagu.Combat.Types.{
  Action, action_grapple, action_counter, Event, EventType, event_damage_applied,
  event_match_finished, event_status_applied, MatchState, TurnResult,
}
use terminal_wrestling_leagu.Animation.{
  Effect, effect_hitstop, effect_shake, effect_knockback, effect_slowmo, TurnVfx, has_effect,
}

-- The four variables of `inferEffects`.
pub record EffectFlags : Type 0 where
  pub has_damage : Bool
  pub has_match_finished : Bool
  pub has_shake : Bool
  pub has_knockback : Bool

abbrev pub pushes : Action → Bool
pushes action_grapple = true
pushes action_counter = true
pushes _ = false

unfoldable pub note_effects : EventType → Event → EffectFlags → EffectFlags
note_effects event_damage_applied e flags = record flags {
  has_damage = true;
  has_shake = if leb_ℤ (pos 15) e.value then true else flags.has_shake;
  has_knockback = if e.success && pushes e.action then true else flags.has_knockback;
}
note_effects event_match_finished e flags = record flags {
  has_match_finished = true;
  has_shake = true;
}
note_effects _ e flags = flags

unfoldable pub note_all : List Event → EffectFlags → EffectFlags
note_all [] flags = flags
note_all (e ∷ events) flags = note_all events (note_effects e.kind e flags)

abbrev pub no_flags : EffectFlags
no_flags = record {
  has_damage = false;
  has_match_finished = false;
  has_shake = false;
  has_knockback = false;
}

abbrev pub when : Bool → Effect → List Effect
when flag effect = if flag then effect ∷ [] else []

unfoldable pub infer_effects : TurnResult → List Effect
infer_effects result =
    let flags = note_all result.events no_flags in
    when flags.has_damage effect_hitstop
    ++ (when flags.has_shake effect_shake
        ++ (when flags.has_knockback effect_knockback
            ++ when flags.has_match_finished effect_slowmo))

-- Marks the side of the fighter who is the target.
unfoldable pub mark_target : MatchState → Event → TurnVfx → TurnVfx
mark_target state e vfx = record vfx {
  left_hit = if str_eq e.target_id state.p1.player_id then true else vfx.left_hit;
  right_hit = if str_eq e.target_id state.p2.player_id then true else vfx.right_hit;
}

unfoldable pub note_vfx : EventType → MatchState → Event → TurnVfx → TurnVfx
note_vfx event_damage_applied state e vfx =
    if not e.success || leb_ℤ e.value (pos 0)
    then vfx
    else mark_target state e (record vfx {
      hit_count = vfx.hit_count + 1;
      total_damage = vfx.total_damage + pos_part e.value;
    })
note_vfx event_status_applied state e vfx =
    let dizzy : TurnVfx =
      if equal_fold e.detail (bytes "stunned")
      then mark_target state e (record vfx { stunned = true })
      else vfx in
    if equal_fold e.detail (bytes "combo_active")
    then record dizzy { combo_active = true }
    else dizzy
note_vfx _ state e vfx = vfx

unfoldable pub note_turn : MatchState → List Event → TurnVfx → TurnVfx
note_turn state [] vfx = vfx
note_turn state (e ∷ events) vfx = note_turn state events (note_vfx e.kind state e vfx)

abbrev pub no_vfx : TurnVfx
no_vfx = record {
  hit_count = 0;
  total_damage = 0;
  heavy_hit = false;
  left_hit = false;
  right_hit = false;
  stunned = false;
  combo_active = false;
  knockback_hit = false;
}

unfoldable pub derive_turn_vfx : TurnResult → List Effect → TurnVfx
derive_turn_vfx result effects =
    let vfx = note_turn result.next result.events no_vfx in
    record vfx {
      heavy_hit = leb 22 vfx.total_damage;
      knockback_hit = has_effect effects effect_knockback;
      right_hit =
          if not vfx.left_hit && (not vfx.right_hit && ltb 0 vfx.hit_count)
          then true
          else vfx.right_hit;
    }
