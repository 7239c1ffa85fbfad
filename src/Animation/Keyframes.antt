-- ===== src/Animation/Keyframes.antt =====
-- renderer.go: `renderKeyframe`, `buildCinematicKeyframes` and `Render`.
use terminal_wrestling_leagu.Common.{
  ℕ, ◌+◌, ◌-◌, ◌/◌, ◌%◌, Bool, true, false, ◌||◌, ◌&&◌, List, [], ◌∷◌, ◌++◌, ltb, if◌then◌else◌,
  ◌==◌,
}
use terminal_wrestling_leagu.Common.Int.{ℤ, pos, ◌+ℤ◌, ◌-ℤ◌, leb_ℤ, ltb_ℤ, pos_part}
use terminal_wrestling_leagu.Common.Text.{Str, bytes, is_empty}
use terminal_wrestling_leagu.Common.Format.{
  to_upper, equal_fold, decimal, pad_left, pad_right, repeat,
}
use terminal_wrestling_leagu.Combat.Types.{action_none, FighterState, MatchState, TurnResult}
use terminal_wrestling_leagu.Animation.{
  Effect, effect_hitstop, effect_shake, effect_knockback, effect_slowmo, Frame, CinematicPhase,
  TurnVfx, has_effect,
}
use terminal_wrestling_leagu.Animation.Poses.{pose_for_phase, stance_label, approach_distance}
use terminal_wrestling_leagu.Animation.Effects.{infer_effects, derive_turn_vfx}
use terminal_wrestling_leagu.Animation.Rows.{
  arena_width, compose_arena_line, health_bar, fit_handle,
}
use terminal_wrestling_leagu.Animation.Captions.{
  compose_fx_overlay_line, phase_effect_caption, summarize_turn,
}

-- The left ends of the two sprites.
pub record Places : Type 0 where
  pub left_x : ℤ
  pub right_x : ℤ

unfoldable pub shaken : Bool → ℕ → Places → Places
shaken shake turn at =
    if shake
    then if turn % 2 == 0
      then record { left_x = at.left_x +ℤ pos 1; right_x = at.right_x -ℤ pos 1 }
      else record { left_x = at.left_x -ℤ pos 1; right_x = at.right_x +ℤ pos 1 }
    else at

unfoldable pub kept_apart : Places → Places
kept_apart at =
    if leb_ℤ at.right_x (at.left_x +ℤ pos 4)
    then record { left_x = pos (arena_width / 2 - 3); right_x = pos (arena_width / 2 + 1) }
    else at

unfoldable pub pushed : Str → TurnVfx → Places → Places
pushed name vfx at =
    if equal_fold name (bytes "knockback")
    then record {
      left_x = if vfx.left_hit then at.left_x -ℤ pos 2 else at.left_x;
      right_x = if vfx.right_hit || vfx.knockback_hit then at.right_x +ℤ pos 2 else at.right_x;
    }
    else at

-- `clampInt` with the bounds of the arena.
unfoldable pub clamp_place : ℤ → ℕ
clamp_place x =
    if ltb_ℤ x (pos 1)
    then 1
    else if ltb_ℤ (pos (arena_width - 4)) x
    then arena_width - 4
    else pos_part x

unfoldable pub place_fighters : ℕ → CinematicPhase → TurnVfx → Places
place_fighters turn phase vfx = pushed phase.name vfx (
    kept_apart (
      shaken phase.shake turn (record {
        left_x = pos (7 + phase.left_advance);
        right_x = pos (arena_width - 10) -ℤ pos phase.right_advance;
      })))

unfoldable pub fighter_line : Str → FighterState → Str
fighter_line handle f =
    pad_right 18 (fit_handle handle 18)
    ++ (bytes " HP:"
        ++ (pad_left 3 (decimal f.hp)
            ++ (bytes " ST:"
                ++ (pad_left 3 (decimal f.stamina)
                    ++ (bytes " MO:"
                        ++ (pad_left 3 (decimal f.momentum) ++ (bytes " " ++ health_bar f.hp)))))))

abbrev pub walled : ℕ → Str → Str
walled wall row = wall ∷ (row ++ (wall ∷ []))

-- The four lines above the arena.
unfoldable pub title_lines : Str → Str → MatchState → CinematicPhase → List Str
title_lines handle1 handle2 state phase =
    (bytes "Turn " ++ (decimal state.turn ++ (bytes " | " ++ to_upper phase.name)))
    ∷ fighter_line handle1 state.p1
    ∷ fighter_line handle2 state.p2
    ∷ (pad_right 32 (stance_label handle1 state.p1.last_action)
        ++ pad_right 32 (stance_label handle2 state.p2.last_action))
    ∷ []

-- The seven lines of the arena.
unfoldable pub arena_lines : ℕ → CinematicPhase → TurnVfx → List Str
arena_lines turn phase vfx =
    let at = place_fighters turn phase vfx in
    let left_x = clamp_place at.left_x in
    let right_x = clamp_place at.right_x in
    walled 43 (repeat 45 arena_width)
    ∷ walled 124
        (compose_arena_line arena_width left_x phase.left_pose.head right_x phase.right_pose.head)
    ∷ walled 124
        (compose_arena_line arena_width left_x phase.left_pose.torso right_x phase.right_pose.torso)
    ∷ walled 124 (compose_fx_overlay_line arena_width phase.name vfx)
    ∷ walled 124
        (compose_arena_line arena_width left_x phase.left_pose.legs right_x phase.right_pose.legs)
    ∷ walled 124 (repeat 95 arena_width)
    ∷ walled 43 (repeat 45 arena_width)
    ∷ []

unfoldable pub caption_lines : CinematicPhase → Str → TurnVfx → Bool → List Str
caption_lines phase summary vfx final =
    let caption = phase_effect_caption phase.name vfx in
    let shown = if is_empty caption then bytes " " else caption in
    if final then shown ∷ summary ∷ [] else shown ∷ []

unfoldable pub render_keyframe :
    Str → Str → MatchState → CinematicPhase → Str → TurnVfx → Bool → List Str
render_keyframe handle1 handle2 state phase summary vfx final =
    title_lines handle1 handle2 state phase
    ++ (arena_lines state.turn phase vfx ++ caption_lines phase summary vfx final)

-- A phase in which both fighters play their last action.
abbrev pub phase_of : MatchState → Str → Str → ℕ → ℕ → Bool → CinematicPhase
phase_of state name pose left right shake = record {
  name = name;
  left_advance = left;
  right_advance = right;
  shake = shake;
  left_pose = pose_for_phase state.p1.last_action false pose;
  right_pose = pose_for_phase state.p2.last_action true pose;
}

abbrev guard_phase : CinematicPhase
guard_phase = record {
  name = bytes "Guard";
  left_advance = 0;
  right_advance = 0;
  shake = false;
  left_pose = pose_for_phase action_none false (bytes "guard");
  right_pose = pose_for_phase action_none true (bytes "guard");
}

abbrev pub at_least_1 : ℕ → ℕ
at_least_1 n = if ltb n 1 then 1 else n

abbrev pub optional : Bool → CinematicPhase → List CinematicPhase
optional b phase = if b then phase ∷ [] else []

-- The phases after the impact, whether there is a hitstop and a stun.
unfoldable pub closing_phases : MatchState → Bool → Bool → Str → ℕ → ℕ → List CinematicPhase
closing_phases state hitstop stunned recover_name left right =
    optional hitstop (phase_of state (bytes "Hitstop") (bytes "impact") left right true)
    ++ (phase_of state recover_name (bytes "recover") (at_least_1 (left / 3))
          (at_least_1 (right / 3)) false
        ∷ optional stunned (
            phase_of state (bytes "Stunned") (bytes "stunned") (at_least_1 (left / 4))
              (at_least_1 (right / 4)) true))

-- The list `phases` that the loop draws.
unfoldable pub cinematic_phases : MatchState → List Effect → TurnVfx → List CinematicPhase
cinematic_phases state effects vfx =
    let left = approach_distance state.p1.last_action in
    let right = approach_distance state.p2.last_action in
    let impact_shake = has_effect effects effect_shake || has_effect effects effect_hitstop in
    let hitstop = has_effect effects effect_hitstop && ltb 0 vfx.hit_count in
    let knockback =
      has_effect effects effect_knockback
      && (vfx.left_hit || (vfx.right_hit || vfx.knockback_hit)) in
    guard_phase
    ∷ phase_of state (bytes "Windup") (bytes "windup") (left / 2) (right / 2) false
    ∷ phase_of state (bytes "Impact") (bytes "impact") left right impact_shake
    ∷ closing_phases state hitstop vfx.stunned
        (if knockback then bytes "Knockback" else bytes "Recover") left right

-- The loop over the phases: the last one is drawn with the summary.
unfoldable pub render_phases :
    Str → Str → MatchState → Str → TurnVfx → List CinematicPhase → List (List Str)
render_phases handle1 handle2 state summary vfx [] = []
render_phases handle1 handle2 state summary vfx (phase ∷ []) =
    render_keyframe handle1 handle2 state phase summary vfx true ∷ []
render_phases handle1 handle2 state summary vfx (phase ∷ next ∷ phases) =
    render_keyframe handle1 handle2 state phase summary vfx false
    ∷ render_phases handle1 handle2 state summary vfx (next ∷ phases)

-- The last frame of a list that is not empty, and a copy of it in slow motion.
unfoldable pub last_frame : List (List Str) → List Str
last_frame [] = []
last_frame (frame ∷ []) = frame
last_frame (frame ∷ next ∷ frames) = last_frame (next ∷ frames)

unfoldable pub slowed : List Str → List Str
slowed [] = []
slowed (line ∷ lines) = (line ++ bytes " | SLOWMO") ∷ lines

unfoldable pub build_cinematic_keyframes :
    Str → Str → TurnResult → Str → List Effect → List (List Str)
build_cinematic_keyframes handle1 handle2 result summary effects =
    let state = result.next in
    let vfx = derive_turn_vfx result effects in
    let keyframes =
      render_phases handle1 handle2 state summary vfx (cinematic_phases state effects vfx) in
    if has_effect effects effect_slowmo || state.outcome.finished
    then keyframes ++ (slowed (last_frame keyframes) ∷ [])
    else keyframes

unfoldable pub render : Str → Str → TurnResult → Frame
render handle1 handle2 result =
    let effects = infer_effects result in
    let summary = summarize_turn result in
    let keyframes = build_cinematic_keyframes handle1 handle2 result summary effects in
    record {
      full = last_frame keyframes;
      delta = [];
      keyframes = keyframes;
      summary = summary;
      effects = effects;
    }
