-- ===== src/Tests/Animation.antt =====
-- A turn in which one fighter grapples the other, and its frames.
use terminal_wrestling_leagu.Common.{◌≡◌, refl, true, [], ◌∷◌, All}
use terminal_wrestling_leagu.Common.Int.{pos}
use terminal_wrestling_leagu.Common.Text.{bytes}
use terminal_wrestling_leagu.Common.Format.{
  digits, decimal, rune_tail, continues, rune_count, count_runes,
}
use terminal_wrestling_leagu.Combat.Types.{
  Event, zero_event, event_damage_applied, action_grapple, TurnResult,
}
use terminal_wrestling_leagu.Animation.{
  CinematicPhase, effect_knockback, effect_hitstop, has_effect, StickPose,
}
use terminal_wrestling_leagu.Animation.Effects.{infer_effects, derive_turn_vfx, no_vfx}
use terminal_wrestling_leagu.Animation.Captions.{summarize_turn, count_blows}
use terminal_wrestling_leagu.Animation.Keyframes.{cinematic_phases, render}
use terminal_wrestling_leagu.Animation.Inferred.{calls_for, has_effect-infer_effects}
use terminal_wrestling_leagu.Animation.Film.{IsFilm, IsFrame, EndsWith, render-IsFilm}
use terminal_wrestling_leagu.Animation.Apart.{IsDrawnApart, phases-IsDrawnApart}
use terminal_wrestling_leagu.Animation.Hits.{hits_of, damage_of, no_blows, derive-Agree}
use terminal_wrestling_leagu.Tests.Combat.{opening}

abbrev grapple : Event
grapple = record zero_event {
  kind = event_damage_applied;
  player_id = 97 ∷ [];
  target_id = 98 ∷ [];
  action = action_grapple;
  value = pos 12;
  success = true;
}

abbrev turn : TurnResult
turn = record {
  events = grapple ∷ [];
  next = opening;
  checksums = record { state_hash = 0; roll_hash = 0 };
}

abbrev knee : StickPose
knee = record { head = bytes " o "; torso = bytes "/|\\"; legs = bytes "/ \\" }

abbrev phase : CinematicPhase
phase = record {
  name = bytes "Impact";
  left_advance = 8;
  right_advance = 3;
  shake = true;
  left_pose = knee;
  right_pose = knee;
}

has_effect-infer_effects_example :
    has_effect (infer_effects turn) effect_knockback ≡ calls_for effect_knockback turn.events
has_effect-infer_effects_example = has_effect-infer_effects turn effect_knockback

render-IsFilm_example :
    IsFilm (summarize_turn turn) (render (65 ∷ []) (66 ∷ []) turn).keyframes
    × IsFrame (summarize_turn turn) true (render (65 ∷ []) (66 ∷ []) turn).full
    × EndsWith (render (65 ∷ []) (66 ∷ []) turn).full (render (65 ∷ []) (66 ∷ []) turn).keyframes
render-IsFilm_example = render-IsFilm (65 ∷ []) (66 ∷ []) turn

phases-IsDrawnApart_example :
    All (IsDrawnApart opening.turn no_vfx) (cinematic_phases opening (effect_hitstop ∷ []) no_vfx)
phases-IsDrawnApart_example = phases-IsDrawnApart opening (effect_hitstop ∷ []) no_vfx

derive-Agree_example :
    ((derive_turn_vfx turn []).hit_count ≡ hits_of turn.events)
    × ((derive_turn_vfx turn []).total_damage ≡ damage_of turn.events)
    × ((count_blows turn.events no_blows).hits ≡ hits_of turn.events)
    × ((count_blows turn.events no_blows).total_damage ≡ damage_of turn.events)
derive-Agree_example = derive-Agree turn [] (λ h. refl, tt)

decimal_test : decimal 120 ≡ bytes "120"
unfolding decimal digits bytes
decimal_test = refl

-- "é" is one character of two bytes, and a byte that starts none stands alone.
rune_count_test : rune_count (195 ∷ 169 ∷ 255 ∷ 97 ∷ []) ≡ 3
unfolding rune_count count_runes rune_tail continues
rune_count_test = refl
