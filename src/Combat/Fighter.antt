-- ===== src/Combat/Fighter.antt =====
-- internal/combat/resolver.go: what a turn does to one fighter, before and after the actions.
use terminal_wrestling_leagu.Common.{
  ℕ, ◌+◌, ◌-◌, ◌*◌, ◌/◌, Bool, true, false, ◌&&◌, List, [], ◌∷◌, ◌++◌, ltb, if◌then◌else◌,
}
use terminal_wrestling_leagu.Common.Int.{ℤ, pos, pos_part, sub_ℕ}
use terminal_wrestling_leagu.Common.Text.{bytes}
use terminal_wrestling_leagu.Combat.Types.{
  Action, action_none, action_strike, action_grapple, action_block, action_dodge, action_counter,
  action_feint, action_break, Zone, zone_torso, zone_legs, FighterState, Event, zero_event,
  event_status_applied, event_stamina_restored, stamina_max,
}
use terminal_wrestling_leagu.Combat.Rules.{
  clamp_int, clamp, max_int, regen_for_endurance, success_chance_bps, action_relevant_attribute,
}

pub record FighterTurnContext : Type 0 where
  pub stunned_at_turn_start : Bool
  pub torso_penalty_at_turn_start : Bool
  pub legs_penalty_at_turn_start : Bool
  pub opponent_action : Action

-- The counters go down only when they are positive, so `-` is exact. The opponent's action is left
-- at its zero value, for the caller to fill in.
unfoldable pub prepare_fighter_turn : FighterState → FighterTurnContext × FighterState
prepare_fighter_turn f =
    let stunned = ltb 0 f.effects.stunned_for in
    let torso = ltb 0 f.effects.torso_regen_penalty_for in
    let legs = ltb 0 f.effects.legs_dodge_penalty_for in
    (
      record {
        stunned_at_turn_start = stunned;
        torso_penalty_at_turn_start = torso;
        legs_penalty_at_turn_start = legs;
        opponent_action = action_none;
      },
      record f {
        effects = record {
          stunned_for = if stunned then f.effects.stunned_for - 1 else f.effects.stunned_for;
          torso_regen_penalty_for =
              if torso
              then f.effects.torso_regen_penalty_for - 1
              else f.effects.torso_regen_penalty_for;
          legs_dodge_penalty_for =
              if legs
              then f.effects.legs_dodge_penalty_for - 1
              else f.effects.legs_dodge_penalty_for;
        };
      },
    )

abbrev pub is_none : Action → Bool
is_none action_none = true
is_none _ = false

abbrev pub is_dodge : Action → Bool
is_dodge action_dodge = true
is_dodge _ = false

abbrev pub is_block : Action → Bool
is_block action_block = true
is_block _ = false

-- The last `switch` of `defenseAttribute`.
unfoldable pub defense_by_action : Action → FighterState → ℕ
defense_by_action action_strike defender = clamp defender.stats.agility 1 10
defense_by_action action_grapple defender = clamp defender.stats.technique 1 10
defense_by_action action_counter defender = clamp defender.stats.technique 1 10
defense_by_action action_feint defender = clamp defender.stats.technique 1 10
defense_by_action action_break defender = clamp defender.stats.power 1 10
defense_by_action _ defender = 1

unfoldable pub defense_attribute : Action → FighterState → Action → Bool → ℕ
defense_attribute action defender defender_action defender_legs_penalty =
    let ag = defender.stats.agility in
    let dodging = if defender_legs_penalty then max_int 1 (ag * 80 / 100) else ag in
    if is_block defender_action
    then clamp (defender.stats.technique + 1) 1 10
    else if is_dodge defender_action
    then clamp dodging 1 10
    else defense_by_action action defender

-- A chance is at least 1000 here, so Go's division is that of the numbers.
unfoldable pub resolve_success_chance :
    FighterState → FighterState → Action → FighterTurnContext → ℤ
resolve_success_chance actor defender action ctx =
    let attacker_attr = action_relevant_attribute action actor.stats in
    let defender_attr =
      defense_attribute action defender ctx.opponent_action ctx.legs_penalty_at_turn_start in
    let chance = success_chance_bps attacker_attr defender_attr actor.momentum actor.stamina in
    let slowed =
      if is_dodge action && ctx.legs_penalty_at_turn_start
      then pos (pos_part chance * 80 / 100)
      else chance in
    clamp_int slowed (pos 1000) (pos 9000)

-- The new fighter and the new list of events.
unfoldable pub apply_zone_effects : FighterState → Zone → List Event → ℕ → FighterState × List Event
apply_zone_effects defender zone_torso events turn = (
  record defender {
    effects = record (defender.effects) {
      torso_regen_penalty_for = max_int defender.effects.torso_regen_penalty_for 2;
    };
  },
  events
      ++ record zero_event {
        turn = turn;
        kind = event_status_applied;
        player_id = defender.player_id;
        zone = zone_torso;
        success = true;
        detail = bytes "torso_regen_penalty";
      }
        ∷ [],
)
apply_zone_effects defender zone_legs events turn = (
  record defender {
    effects = record (defender.effects) {
      legs_dodge_penalty_for = max_int defender.effects.legs_dodge_penalty_for 2;
    };
  },
  events
      ++ record zero_event {
        turn = turn;
        kind = event_status_applied;
        player_id = defender.player_id;
        zone = zone_legs;
        success = true;
        detail = bytes "legs_dodge_penalty";
      }
        ∷ [],
)
apply_zone_effects defender _ events turn = (defender, events)

-- The regenerated stamina: no term of it can be negative.
unfoldable pub apply_regen :
    FighterState → FighterTurnContext → ℕ → List Event → FighterState × List Event
apply_regen f ctx turn events =
    let full = regen_for_endurance f.stats.endurance in
    let regen = if ctx.torso_penalty_at_turn_start then full * 80 / 100 else full in
    let stamina = clamp (f.stamina + regen) 0 stamina_max in
    (
      record f { stamina = stamina },
      events
          ++ record zero_event {
            turn = turn;
            kind = event_stamina_restored;
            player_id = f.player_id;
            value = sub_ℕ stamina f.stamina;
            success = true;
            detail = bytes "turn_regen";
          }
            ∷ [],
    )
