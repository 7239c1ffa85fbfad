-- ===== src/Combat/Scene.antt =====
-- internal/combat/resolver.go: the steps of one action that roll no random number.
-- The pointers `actor` and `defender` into the next state are two fighters of a scene, which also
-- holds the rest of what the body reads and writes: the source of random numbers, the sum of the
-- rolls and the list of events.
use terminal_wrestling_leagu.Common.{
  ℕ, ◌+◌, ◌-◌, Bool, true, false, ◌&&◌, ◌||◌, not, List, [], ◌∷◌, ◌++◌, ltb, leb, ◌==◌,
  if◌then◌else◌,
}
use terminal_wrestling_leagu.Common.Int.{ℤ, pos, pos_part, sub_ℕ}
use terminal_wrestling_leagu.Common.Text.{Str, bytes}
use terminal_wrestling_leagu.Combat.Types.{
  State, state_neutral, state_clinch, state_ground, state_dominant, state_stunned,
  state_submission_attempt, Action, action_none, unknown_action, Zone, FighterState, MatchOutcome,
  Event, zero_event, event_action_resolved, event_damage_applied, event_status_applied,
  event_state_changed, event_match_finished, hp_max,
}
use terminal_wrestling_leagu.Combat.Rules.{
  is_active, clamp_int, clamp, max_int, is_offensive, requires_hitbox, move_for_action,
}
use terminal_wrestling_leagu.Combat.Fighter.{apply_zone_effects}

pub record Scene (R : Type 0) : Type 0 where
  pub actor : FighterState
  pub defender : FighterState
  pub turn : ℕ
  pub distance : ℕ
  pub combat_state : State
  pub outcome : MatchOutcome
  pub rng : R
  pub roll_hash : ℕ
  pub events : List Event

unfoldable pub normalize_action : Action → Action
normalize_action (unknown_action n) = action_none
normalize_action action_none = action_none
normalize_action a = a

abbrev pub is_stunned : State → Bool
is_stunned state_stunned = true
is_stunned _ = false

abbrev pub is_submission_attempt : State → Bool
is_submission_attempt state_submission_attempt = true
is_submission_attempt _ = false

unfoldable pub state_name : State → Str
state_name state_neutral = bytes "Neutral"
state_name state_clinch = bytes "Clinch"
state_name state_ground = bytes "Ground"
state_name state_dominant = bytes "Dominant"
state_name state_stunned = bytes "Stunned"
state_name state_submission_attempt = bytes "SubmissionAttempt"

-- Where a successful grapple takes the fight.
unfoldable pub next_position : State → State
next_position state_neutral = state_clinch
next_position state_clinch = state_ground
next_position state_ground = state_dominant
next_position state_dominant = state_submission_attempt
next_position state_submission_attempt = state_submission_attempt
next_position state_stunned = state_stunned

-- A fighter who is not stunned takes up the new position.
unfoldable pub take_position : State → FighterState → FighterState
take_position s f = if is_stunned f.state then f else record f { state = s }

unfoldable pub is_advance : State → Bool
is_advance state_submission_attempt = false
is_advance state_stunned = false
is_advance _ = true

unfoldable pub is_combo : ℕ → Action → FighterState → Bool
is_combo prev_turn action actor =
    is_offensive action && actor.last_offensive_hit_turn == prev_turn && ltb 30 actor.stamina

unfoldable pub in_reach : Action → ℕ → Bool
in_reach action distance =
    let move = move_for_action action in
    not (requires_hitbox action) || (is_active move 1 && leb distance move.range)

module _ {R : Type 0} where
  unfoldable pub log : Event → Scene R → Scene R
  log e sc = record sc { events = sc.events ++ record e { turn = sc.turn } ∷ [] }

  unfoldable pub log_skip : Scene R → Scene R
  unfolding log
  log_skip sc =
      log
        (record zero_event {
          kind = event_status_applied;
          player_id = sc.actor.player_id;
          detail = bytes "stunned_skip";
        })
        (record sc {
          actor = record (sc.actor) { last_action = action_none; last_action_success = false };
        })

  unfoldable pub log_tired : Action → Zone → Scene R → Scene R
  unfolding log
  log_tired action target sc =
      log
        (record zero_event {
          kind = event_action_resolved;
          player_id = sc.actor.player_id;
          target_id = sc.defender.player_id;
          action = action;
          zone = target;
          detail = bytes "insufficient_stamina";
        })
        (record sc { actor = record (sc.actor) { last_action_success = false } })

  -- The case of the attacks, up to the zone's effects.
  unfoldable pub deal_damage : Action → Zone → ℕ → Scene R → Scene R
  unfolding log
  deal_damage action target damage sc =
      let hurt = record (sc.defender) {
        hp = pos_part (clamp_int (sub_ℕ sc.defender.hp damage) (pos 0) (pos hp_max));
        momentum = pos_part (clamp_int (sub_ℕ sc.defender.momentum 6) (pos 0) (pos 50));
      } in
      let hit = record (sc.actor) { last_offensive_hit_turn = sc.turn } in
      let e = record zero_event {
        kind = event_damage_applied;
        player_id = sc.actor.player_id;
        target_id = sc.defender.player_id;
        action = action;
        zone = target;
        value = pos damage;
        success = true;
        detail = bytes "damage";
      } in
      if ltb 0 damage then log e (record sc { actor = hit; defender = hurt }) else sc

  unfoldable pub mark_zone : Zone → Scene R → Scene R
  unfolding apply_zone_effects
  mark_zone target sc =
      let (defender, events) = apply_zone_effects sc.defender target sc.events sc.turn in
      record sc { defender = defender; events = events }

  unfoldable pub stun : Zone → ℤ → Scene R → Scene R
  unfolding log
  stun target chance sc =
      log
        (record zero_event {
          kind = event_status_applied;
          player_id = sc.defender.player_id;
          target_id = sc.actor.player_id;
          zone = target;
          value = chance;
          success = true;
          detail = bytes "stunned";
        })
        (record sc {
          defender = record (sc.defender) {
            state = state_stunned;
            effects = record (sc.defender.effects) {
              stunned_for = max_int sc.defender.effects.stunned_for 1;
            };
          };
        })

  unfoldable pub knock_out : Scene R → Scene R
  unfolding log
  knock_out sc =
      let e = record zero_event {
        kind = event_match_finished;
        player_id = sc.actor.player_id;
        target_id = sc.defender.player_id;
        success = true;
        detail = bytes "ko";
      } in
      let out : MatchOutcome = record {
        finished = true;
        winner_id = sc.actor.player_id;
        method = bytes "KO";
      } in
      if sc.defender.hp == 0 then log e (record sc { outcome = out }) else sc

  -- The first half of `applyGrappleTransition`.
  unfoldable pub advance_position : Scene R → Scene R
  unfolding log
  advance_position sc =
      let s = next_position sc.combat_state in
      let e = record zero_event {
        kind = event_state_changed;
        player_id = sc.actor.player_id;
        target_id = sc.defender.player_id;
        success = true;
        detail = state_name sc.combat_state ++ bytes "_to_" ++ state_name s;
      } in
      let moved = record sc {
        combat_state = s;
        actor = take_position s sc.actor;
        defender = take_position s sc.defender;
      } in
      if is_advance sc.combat_state then log e moved else sc

  unfoldable pub submit : ℤ → Scene R → Scene R
  unfolding log
  submit chance sc =
      log
        (record zero_event {
          kind = event_match_finished;
          player_id = sc.actor.player_id;
          target_id = sc.defender.player_id;
          value = chance;
          success = true;
          detail = bytes "submission";
        })
        (record sc {
          outcome = record {
            finished = true;
            winner_id = sc.actor.player_id;
            method = bytes "Submission";
          };
        })

  unfoldable pub break_hold : Scene R → Scene R
  unfolding log
  break_hold sc =
      log
        (record zero_event {
          kind = event_state_changed;
          player_id = sc.actor.player_id;
          success = true;
          detail = bytes "break_to_neutral";
        })
        (record sc {
          combat_state = state_neutral;
          actor = take_position state_neutral sc.actor;
          defender = take_position state_neutral sc.defender;
        })

  unfoldable pub gain_momentum : Bool → Action → Scene R → Scene R
  unfolding log
  gain_momentum combo action sc =
      let once = clamp (sc.actor.momentum + 8) 0 50 in
      let e = record zero_event {
        kind = event_status_applied;
        player_id = sc.actor.player_id;
        action = action;
        success = true;
        detail = bytes "combo_active";
      } in
      if combo
      then log e (record sc { actor = record (sc.actor) { momentum = clamp (once + 5) 0 50 } })
      else record sc { actor = record (sc.actor) { momentum = once } }

  unfoldable pub log_resolved : Action → Zone → ℤ → Bool → Bool → Scene R → Scene R
  unfolding log
  log_resolved action target chance hit reach sc =
      log
        (record zero_event {
          kind = event_action_resolved;
          player_id = sc.actor.player_id;
          target_id = sc.defender.player_id;
          action = action;
          zone = target;
          value = chance;
          success = hit && reach;
          detail = if hit && not reach then bytes "miss_out_of_range" else bytes "chance_roll";
        })
        (record sc { actor = record (sc.actor) { last_action_success = hit && reach } })

  unfoldable pub feint : Scene R → Scene R
  feint sc = record sc { actor = record (sc.actor) { last_offensive_hit_turn = sc.turn } }

  unfoldable pub pay : ℕ → Scene R → Scene R
  pay cost sc = record sc { actor = record (sc.actor) { stamina = sc.actor.stamina - cost } }

  unfoldable pub announce : Action → Scene R → Scene R
  announce action sc = record sc { actor = record (sc.actor) { last_action = action } }

  unfoldable pub idle : Scene R → Scene R
  idle sc = record sc { actor = record (sc.actor) { last_action_success = false } }
