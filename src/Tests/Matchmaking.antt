-- ===== src/Tests/Matchmaking.antt =====
-- A match of two players of one turn, and what the matchmaking theorems say of it.
use terminal_wrestling_leagu.Common.{◌≡◌, refl, ℕ, none, true, false, [], ◌∷◌}
use terminal_wrestling_leagu.Common.Int.{pos}
use terminal_wrestling_leagu.Tests.Combat.{opening}
use terminal_wrestling_leagu.Combat.Types.{action_none, action_strike, zone_head}
use terminal_wrestling_leagu.Npc.{decide, self_not_present, refused}
use terminal_wrestling_leagu.Matchmaking.Slots.{
  Engine, action_command, MatchSlot, TurnInputResult, turn_input_timeout,
}
use terminal_wrestling_leagu.Matchmaking.Takeover.{SeatTurn, resolve_turn_input-SeatTurn}
use terminal_wrestling_leagu.Matchmaking.Match.{
  TurnEnv, MatchSetup, FinalizeMatchParams, MatchRun, finalized, match_result_draw,
}
use terminal_wrestling_leagu.Matchmaking.Match.Record.{Reproduces, run_match-Reproduces}
use terminal_wrestling_leagu.Matchmaking.Match.Alive.{run_match_finishes}
use terminal_wrestling_leagu.Matchmaking.Match.Finish.{Verdict, run_match-Verdict}
use terminal_wrestling_leagu.Combat.Exchange.{
  roll, try_stun, try_submission, apply_grapple_transition, attack, take_effect, land, attempt, act,
}
use terminal_wrestling_leagu.Combat.Fighter.{
  prepare_fighter_turn, defense_by_action, defense_attribute, resolve_success_chance,
  apply_zone_effects, apply_regen,
}
use terminal_wrestling_leagu.Combat.Hash.{
  fnv_new, fnv_write, little_endian, append_hash_int, state_code, action_code, archetype_code,
  write_hash_int, write_hash_bool, write_hash_string, write_hash_fighter, hash_match_state,
}
use terminal_wrestling_leagu.Combat.Order.{
  find_input, collect_inputs, all_known, default_input, normalize_zone, input_for, sort_pair,
  order_inputs, canonicalize_inputs,
}
use terminal_wrestling_leagu.Combat.Rules.{
  is_active, action_base_cost, action_move_spec, clamp_int, clamp, max_int, action_stamina_cost,
  regen_for_endurance, fatigue_penalty_bps, success_chance_bps, action_relevant_attribute,
  base_damage, damage_final, stun_chance_bps, submission_chance_bps, is_offensive, requires_hitbox,
  move_for_action,
}
use terminal_wrestling_leagu.Combat.Scene.{
  normalize_action, state_name, next_position, take_position, is_advance, is_combo, in_reach, log,
  log_skip, log_tired, deal_damage, mark_zone, stun, knock_out, advance_position, submit,
  break_hold, gain_momentum, log_resolved, feint, pay, announce, idle,
}
use terminal_wrestling_leagu.Combat.Turn.{
  fighters_by_id, action_of, recover, enter, leave, begin_turn, exchange, resolve_input,
  resolve_inputs, end_turn, turn_result, play_turn, resolve_turn,
}
use terminal_wrestling_leagu.Combat.Types.{archetype_stats, new_fighter, new_match_state}
use terminal_wrestling_leagu.Common.Int.{◌+ℤ◌, ◌-ℤ◌, to_u64}
use terminal_wrestling_leagu.Common.Text.{bytes, str_eq, str_lt}
use terminal_wrestling_leagu.Engine.Rng.{
  deterministic, new_deterministic_rng, xorshift, next_uint64, next_int, snapshot,
}
use terminal_wrestling_leagu.Engine.Simulator.{standard_resolver, new_combat_simulator, step}
use terminal_wrestling_leagu.Matchmaking.Collect.{
  find_slot_by_player_id, find_result, index_results, order_turn_results_by_slot, resolve_result,
  resolve_results, collect_turn_inputs,
}
use terminal_wrestling_leagu.Matchmaking.Match.{
  count_stuns, relative_time, record_turn, play_canonical, play_inputs, play_round, run_turns,
  map_method, map_result, initial_match, open_table, finalize_params, finish_match, run_match,
}
use terminal_wrestling_leagu.Matchmaking.Seeds.{
  fnv32_write, archetype_of_hash, pick_archetype, seed_for_pair, seed_with_salt,
}
use terminal_wrestling_leagu.Matchmaking.Slots.{
  idle_input, normalize_turn_input, decide_npc_input, wait_for_turn_input, collect, take_over,
  resolve_timeout, resolve_turn_input,
}
use terminal_wrestling_leagu.Common.Answer.{done}
use terminal_wrestling_leagu.Storage.Matches.{accept_params}
use terminal_wrestling_leagu.Storage.Scores.{finalize_call, Deserved, run_match-accepted}
use terminal_wrestling_leagu.Tests.Storage.{Fraction, fraction_float}

-- A computer that never decides.
abbrev pub engine : Engine
engine = λ state id rng. refused self_not_present

abbrev pub setup : MatchSetup
setup = record { id1 = 97 ∷ []; id2 = 98 ∷ []; seed = 7; max_turns = 1 }

-- The first player strikes and the second one says nothing.
abbrev pub env : ℕ → TurnEnv
env = λ turn. record {
  canceled = false;
  signals = record {
    signals1 = action_command action_strike zone_head (pos 300) ∷ [];
    signals2 = [];
    second_first = true;
  };
  elapsed_ms = pos 900;
  shown = true;
}

abbrev pub params_of : MatchRun → FinalizeMatchParams
params_of (finalized p) = p
params_of _ = record {
  player1_id = [];
  player2_id = [];
  winner_id = none;
  result_type = match_result_draw;
  seed = 0;
  initial_state = opening;
  turns = [];
}

abbrev pub stored : FinalizeMatchParams
stored = params_of (run_match standard_resolver engine env setup)

pub played : run_match standard_resolver engine env setup ≡ finalized stored
unfolding roll try_stun try_submission apply_grapple_transition attack take_effect land attempt act
    prepare_fighter_turn defense_by_action defense_attribute resolve_success_chance
    apply_zone_effects apply_regen fnv_new fnv_write little_endian append_hash_int state_code
    action_code archetype_code write_hash_int write_hash_bool write_hash_string write_hash_fighter
    hash_match_state find_input collect_inputs all_known default_input normalize_zone input_for
    sort_pair order_inputs canonicalize_inputs is_active action_base_cost action_move_spec clamp_int
    clamp max_int action_stamina_cost regen_for_endurance fatigue_penalty_bps success_chance_bps
    action_relevant_attribute base_damage damage_final stun_chance_bps submission_chance_bps
    is_offensive requires_hitbox move_for_action normalize_action state_name next_position
    take_position is_advance is_combo in_reach log log_skip log_tired deal_damage mark_zone stun
    knock_out advance_position submit break_hold gain_momentum log_resolved feint pay announce idle
    fighters_by_id action_of recover enter leave begin_turn exchange resolve_input resolve_inputs
    end_turn turn_result play_turn resolve_turn archetype_stats new_fighter new_match_state ◌+ℤ◌
    ◌-ℤ◌ to_u64 bytes str_eq str_lt new_deterministic_rng xorshift next_uint64 next_int snapshot
    standard_resolver new_combat_simulator step find_slot_by_player_id find_result index_results
    order_turn_results_by_slot resolve_result resolve_results collect_turn_inputs count_stuns
    relative_time record_turn play_canonical play_inputs play_round run_turns map_method map_result
    initial_match open_table finalize_params finish_match run_match fnv32_write archetype_of_hash
    pick_archetype seed_for_pair seed_with_salt idle_input normalize_turn_input decide_npc_input
    wait_for_turn_input collect take_over resolve_timeout resolve_turn_input
played = refl

run_match-Reproduces_example : Reproduces stored
run_match-Reproduces_example = run_match-Reproduces engine env setup stored refl refl played

run_match-Verdict_example : Verdict stored
run_match-Verdict_example = run_match-Verdict engine env setup stored refl refl played

abbrev slot : MatchSlot
slot = record {
  player_id = 97 ∷ [];
  npc_controlled = false;
  timeout_streak = 1;
  npc_rng = record { state = 7 };
}

abbrev timed_out : TurnInputResult
timed_out = record {
  player_id = 97 ∷ [];
  input = record {
    player_id = 97 ∷ [];
    action = action_none;
    target = zone_head;
    decision_ms = pos 0;
  };
  status = turn_input_timeout;
}

resolve_turn_input-SeatTurn_example :
    SeatTurn slot turn_input_timeout (resolve_turn_input engine opening slot timed_out)
resolve_turn_input-SeatTurn_example = resolve_turn_input-SeatTurn engine opening slot timed_out

named_apart : str_eq setup.id1 setup.id2 ≡ false
unfolding str_eq
named_apart = refl

run_match_finishes_example :
    (p : FinalizeMatchParams) × (run_match standard_resolver (decide deterministic) env setup
      ≡ finalized p)
run_match_finishes_example =
    run_match_finishes env setup refl refl named_apart
      (λ t. record { stays = refl; calm1 = (tt, tt); calm2 = tt; shown = refl })

differ : str_eq setup.id1 setup.id2 ≡ false
unfolding str_eq
differ = refl

run_match-accepted_example :
    (scores : Fraction × Fraction) × (accept_params (finalize_call (109 ∷ []) 5 9 stored)
      ≡ done scores)
    × Deserved (finalize_call (109 ∷ []) 5 9 stored) scores
run_match-accepted_example =
    run_match-accepted engine env setup stored (109 ∷ []) 5 9 refl refl differ refl refl refl played
