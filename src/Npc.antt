-- ===== src/Npc.antt =====
-- internal/npc/engine.go: the weighted choices of the computer's fighter. Weights are integers; the
-- slices that the source adjusts in place are lists that are mapped.
pub mod Choice
pub mod Adjust
pub mod Interval
pub mod Moves
pub mod Named
use terminal_wrestling_leagu.Common.{
  ℕ, ◌<◌, Bool, true, false, ◌||◌, List, [], ◌∷◌, ltb, if◌then◌else◌, Option, none, some,
}
use terminal_wrestling_leagu.Common.Int.{ℤ, pos}
use terminal_wrestling_leagu.Common.Text.{Str, is_empty}
use terminal_wrestling_leagu.Combat.Types.{
  State, state_neutral, state_clinch, state_ground, state_dominant, state_stunned,
  state_submission_attempt, Action, action_none, action_strike, action_grapple, action_block,
  action_dodge, action_counter, action_feint, action_break, Zone, zone_head, zone_torso, zone_legs,
  FighterState, MatchState, TurnInput, RandomSource,
}
use terminal_wrestling_leagu.Combat.Scene.{is_stunned}
use terminal_wrestling_leagu.Combat.Turn.{Slot, fighters_by_id, actor_of, defender_of}
use Choice.{Weight, choose}
use Adjust.{adjust_action_weights, adjust_zone_weights}

-- The table of seven weights, in the order of the source.
abbrev weights : ℕ → ℕ → ℕ → ℕ → ℕ → ℕ → ℕ → List (Weight Action)
weights strike grapple block dodge counter feint break =
    record { item = action_strike; weight = pos strike }
    ∷ record { item = action_grapple; weight = pos grapple }
    ∷ record { item = action_block; weight = pos block }
    ∷ record { item = action_dodge; weight = pos dodge }
    ∷ record { item = action_counter; weight = pos counter }
    ∷ record { item = action_feint; weight = pos feint }
    ∷ record { item = action_break; weight = pos break }
    ∷ []

unfoldable pub base_action_weights : State → List (Weight Action)
base_action_weights state_clinch = weights 20 30 10 8 8 4 20
base_action_weights state_ground = weights 12 32 10 8 8 6 24
base_action_weights state_dominant = weights 22 30 10 8 10 14 6
base_action_weights state_submission_attempt = weights 12 20 12 8 8 10 30
base_action_weights _ = weights 34 20 14 14 8 8 2

abbrev zones : ℕ → ℕ → ℕ → List (Weight Zone)
zones head torso legs =
    record { item = zone_head; weight = pos head }
    ∷ record { item = zone_torso; weight = pos torso }
    ∷ record { item = zone_legs; weight = pos legs }
    ∷ []

unfoldable pub base_zone_weights : Action → List (Weight Zone)
base_zone_weights action_grapple = zones 15 65 20
base_zone_weights action_counter = zones 35 45 20
base_zone_weights _ = zones 30 45 25

pub data NpcError : Type 0 where
  self_id_required self_not_present : NpcError

pub data Decision (R : Type 0) : Type 0 where
  decided : TurnInput → R → Decision R
  refused : NpcError → Decision R

-- `ActionNone` is never played on purpose.
unfoldable pub or_block : Action → Action
or_block action_none = action_block
or_block action = action

unfoldable pub npc_input : Str → Action → Zone → TurnInput
npc_input id action target = record {
  player_id = id;
  action = action;
  target = target;
  decision_ms = pos 0;
}

module _ {R : Type 0} (source : RandomSource R) where
  unfoldable pub choose_action : List (Weight Action) → R → Action × R
  choose_action = choose source action_none

  unfoldable pub choose_zone : List (Weight Zone) → R → Zone × R
  choose_zone = choose source zone_torso

  -- The choice of a fighter who can act.
  unfoldable pub decide_for : State → FighterState → FighterState → R → Decision R
  decide_for position self opp rng =
      let (chosen, rng1) =
        choose_action (adjust_action_weights (base_action_weights position) self opp) rng in
      let action = or_block chosen in
      let (zone, rng2) =
        choose_zone (adjust_zone_weights (base_zone_weights action) action self opp) rng1 in
      decided (npc_input self.player_id action zone) rng2

  unfoldable pub decide_as : MatchState → Slot → R → Decision R
  decide_as state slot rng =
      let self = actor_of slot state in
      if is_stunned self.state || ltb 0 self.effects.stunned_for
      then decided (npc_input self.player_id action_none zone_torso) rng
      else decide_for state.combat_state self (defender_of slot state) rng

  -- The source of random numbers is never nil here.
  unfoldable pub decide : MatchState → Str → R → Decision R
  decide state self_id rng =
      let found : Decision R = elim (fighters_by_id state self_id) [
        | none ↦ refused self_not_present
        | some slot ↦ decide_as state slot rng
      ] in
      if is_empty self_id then refused self_id_required else found
