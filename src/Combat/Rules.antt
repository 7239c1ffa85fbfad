-- ===== src/Combat/Rules.antt =====
-- internal/combat/rules.go: costs, chances and damage. Go's `/` on the numbers below, which are
-- never negative, is `/` of ℕ.
use terminal_wrestling_leagu.Common.{
  ℕ, ◌+◌, ◌-◌, ◌*◌, ◌/◌, Bool, true, false, ◌&&◌, Option, none, some, ltb, leb, if◌then◌else◌,
}
use terminal_wrestling_leagu.Common.Int.{ℤ, pos, ◌+ℤ◌, ◌-ℤ◌, scale, sub_ℕ, ltb_ℤ}
use terminal_wrestling_leagu.Combat.Types.{
  Action, action_none, action_strike, action_grapple, action_block, action_dodge, action_counter,
  action_feint, action_break, unknown_action, Zone, zone_head, FighterStats, FighterState,
}

abbrev pub fatigue_threshold : ℕ
fatigue_threshold = 20

pub record MoveSpec : Type 0 where
  pub range : ℕ
  pub frame_active_start : ℕ
  pub frame_active_end : ℕ
  pub requires_collision : Bool

unfoldable pub is_active : MoveSpec → ℕ → Bool
is_active m frame = leb m.frame_active_start frame && leb frame m.frame_active_end

-- The map `actionBaseCost`; a missing key reads as 0.
unfoldable pub action_base_cost : Action → ℕ
action_base_cost action_none = 0
action_base_cost action_strike = 10
action_base_cost action_grapple = 14
action_base_cost action_dodge = 8
action_base_cost action_block = 6
action_base_cost action_counter = 12
action_base_cost action_feint = 9
action_base_cost action_break = 10
action_base_cost (unknown_action n) = 0

-- The map `actionMoveSpec`.
unfoldable pub action_move_spec : Action → Option MoveSpec
action_move_spec action_strike =
    some (record {
      range = 2;
      frame_active_start = 1;
      frame_active_end = 2;
      requires_collision = true;
    })
action_move_spec action_grapple =
    some (record {
      range = 1;
      frame_active_start = 1;
      frame_active_end = 2;
      requires_collision = true;
    })
action_move_spec action_counter =
    some (record {
      range = 2;
      frame_active_start = 1;
      frame_active_end = 1;
      requires_collision = true;
    })
action_move_spec action_feint =
    some (record {
      range = 2;
      frame_active_start = 1;
      frame_active_end = 1;
      requires_collision = false;
    })
action_move_spec _ = none

-- `ClampInt` at integers, and at arguments that are not negative.
unfoldable pub clamp_int : ℤ → ℤ → ℤ → ℤ
clamp_int v min_v max_v = if ltb_ℤ v min_v then min_v else if ltb_ℤ max_v v then max_v else v

unfoldable pub clamp : ℕ → ℕ → ℕ → ℕ
clamp v min_v max_v = if ltb v min_v then min_v else if ltb max_v v then max_v else v

unfoldable pub max_int : ℕ → ℕ → ℕ
max_int a b = if ltb b a then a else b

unfoldable pub action_stamina_cost : Action → ℕ → ℕ
unfolding action_base_cost clamp
action_stamina_cost action endurance =
    let base = action_base_cost action in
    let cost = base * (100 - clamp endurance 1 10 * 3) / 100 in
    if leb base 0 then 0 else if ltb cost 1 then 1 else cost

unfoldable pub regen_for_endurance : ℕ → ℕ
unfolding clamp
regen_for_endurance endurance = (50 + clamp endurance 1 10 * 8) / 10

unfoldable pub fatigue_penalty_bps : ℕ → ℕ
fatigue_penalty_bps stamina = if ltb stamina fatigue_threshold then 1500 else 0

unfoldable pub success_chance_bps : ℕ → ℕ → ℕ → ℕ → ℤ
success_chance_bps attacker_attr defender_attr attacker_momentum attacker_stamina =
    let chance =
      pos (5000 + attacker_attr * 300)
      -ℤ pos (defender_attr * 200)
      +ℤ pos (attacker_momentum * 15)
      -ℤ pos (fatigue_penalty_bps attacker_stamina) in
    clamp_int chance (pos 1000) (pos 9000)

unfoldable pub action_relevant_attribute : Action → FighterStats → ℕ
action_relevant_attribute action_strike stats = stats.power
action_relevant_attribute action_grapple stats = stats.technique
action_relevant_attribute action_block stats = stats.technique
action_relevant_attribute action_dodge stats = stats.agility
action_relevant_attribute action_counter stats = stats.technique
action_relevant_attribute action_feint stats = stats.agility
action_relevant_attribute action_break stats = stats.power
action_relevant_attribute _ stats = 1

unfoldable pub base_damage : Action → FighterStats → ℕ
base_damage action_strike stats = 12 + stats.power
base_damage action_grapple stats = 10 + stats.technique
base_damage action_counter stats = 8 + stats.technique
base_damage _ stats = 0

-- The result is never negative, so the source's last test does not fire.
unfoldable pub damage_final : ℕ → ℕ → Bool → ℕ
unfolding clamp
damage_final base momentum combo_active =
    let damage = base * (100 + clamp momentum 0 50) / 100 in
    if combo_active then damage * 110 / 100 else damage

abbrev is_head : Zone → Bool
is_head zone_head = true
is_head _ = false

unfoldable pub stun_chance_bps : Zone → ℕ → ℤ → ℤ
stun_chance_bps zone defender_stamina momentum_diff =
    let head : ℕ = if is_head zone then 1000 else 0 in
    let low : ℕ = if ltb defender_stamina fatigue_threshold then 500 else 0 in
    clamp_int (pos (1000 + head + low) +ℤ scale 50 momentum_diff) (pos 0) (pos 9500)

unfoldable pub submission_chance_bps : FighterState → FighterState → ℤ
submission_chance_bps attacker defender =
    let low : ℕ = if ltb defender.stamina fatigue_threshold then 500 else 0 in
    let chance =
      pos 3000
      +ℤ scale 300 (sub_ℕ attacker.stats.technique defender.stats.technique)
      +ℤ scale 20 (sub_ℕ attacker.momentum defender.momentum) in
    clamp_int (chance +ℤ pos low) (pos 1000) (pos 9000)

unfoldable pub is_offensive : Action → Bool
is_offensive action_strike = true
is_offensive action_grapple = true
is_offensive action_counter = true
is_offensive action_feint = true
is_offensive _ = false

unfoldable pub requires_hitbox : Action → Bool
requires_hitbox action = elim (action_move_spec action) [
  | none ↦ false
  | some spec ↦ spec.requires_collision
]

unfoldable pub move_for_action : Action → MoveSpec
move_for_action action = elim (action_move_spec action) [
  | none ↦ record {
    range = 0;
    frame_active_start = 0;
    frame_active_end = 0;
    requires_collision = false;
  }
  | some spec ↦ spec
]
