-- ===== src/Tests/Preserved.antt =====
-- A match that is played, stored, read back and replayed.
use terminal_wrestling_leagu.Common.{◌≡◌, refl, [], ◌∷◌, some, List, arith}
use terminal_wrestling_leagu.Common.Int.{◌+ℤ◌, ◌-ℤ◌, to_u64}
use terminal_wrestling_leagu.Combat.Types.{archetype_stats, new_fighter, new_match_state}
use terminal_wrestling_leagu.Matchmaking.Slots.{
  idle_input, normalize_turn_input, decide_npc_input, wait_for_turn_input, collect, take_over,
  resolve_timeout, resolve_turn_input,
}
use terminal_wrestling_leagu.Matchmaking.Match.{
  count_stuns, relative_time, record_turn, play_canonical, play_inputs, play_round, run_turns,
  map_method, map_result, initial_match, open_table, finalize_params, finish_match, run_match,
}
use terminal_wrestling_leagu.Combat.Exchange.{
  roll, try_stun, try_submission, apply_grapple_transition, attack, take_effect, land, attempt, act,
}
use terminal_wrestling_leagu.Combat.Fighter.{
  prepare_fighter_turn, defense_by_action, defense_attribute, resolve_success_chance,
  apply_zone_effects, apply_regen,
}
use terminal_wrestling_leagu.Combat.Hash.{
  fnv_new, fnv_write, little_endian, append_hash_int, state_code, action_code, archetype_code,
  write_hash_int, write_hash_bool, write_hash_string, write_hash_fighter, hash_match_state,
}
use terminal_wrestling_leagu.Combat.Order.{
  find_input, collect_inputs, all_known, default_input, normalize_zone, input_for, sort_pair,
  order_inputs, canonicalize_inputs,
}
use terminal_wrestling_leagu.Combat.Rules.{
  is_active, action_base_cost, action_move_spec, clamp_int, clamp, max_int, action_stamina_cost,
  regen_for_endurance, fatigue_penalty_bps, success_chance_bps, action_relevant_attribute,
  base_damage, damage_final, stun_chance_bps, submission_chance_bps, is_offensive, requires_hitbox,
  move_for_action,
}
use terminal_wrestling_leagu.Combat.Scene.{
  normalize_action, state_name, next_position, take_position, is_advance, is_combo, in_reach, log,
  log_skip, log_tired, deal_damage, mark_zone, stun, knock_out, advance_position, submit,
  break_hold, gain_momentum, log_resolved, feint, pay, announce, idle,
}
use terminal_wrestling_leagu.Combat.Turn.{
  fighters_by_id, action_of, recover, enter, leave, begin_turn, exchange, resolve_input,
  resolve_inputs, end_turn, turn_result, play_turn, resolve_turn,
}
use terminal_wrestling_leagu.Common.Text.{bytes, str_eq, str_lt}
use terminal_wrestling_leagu.Engine.Rng.{
  new_deterministic_rng, xorshift, next_uint64, next_int, snapshot,
}
use terminal_wrestling_leagu.Engine.Simulator.{standard_resolver, new_combat_simulator, step}
use terminal_wrestling_leagu.Matchmaking.Collect.{
  find_slot_by_player_id, find_result, index_results, order_turn_results_by_slot, resolve_result,
  resolve_results, collect_turn_inputs,
}
use terminal_wrestling_leagu.Matchmaking.Seeds.{
  fnv32_write, archetype_of_hash, pick_archetype, seed_for_pair, seed_with_salt,
}
use terminal_wrestling_leagu.Common.Answer.{done}
use terminal_wrestling_leagu.Storage.Matches.{
  accept_params, FinalizedMatch, winner_scores, draw_scores, scores_for_result, match_duration_ms,
  finalized_row, has_match, put_match, has_result, put_result, insert_match_tx,
  insert_match_result_tx, rated_entry, insert_replay_tx, store_match, updated, rate_match,
  finalize_tx, finalize_scored, finalize_match, completed_row, create_match,
}
use terminal_wrestling_leagu.Storage.Scores.{finalize_call}
use terminal_wrestling_leagu.Matchmaking.Match.{ReplayTurn}
use terminal_wrestling_leagu.Tests.Storage.{Fraction, fraction_float}
use terminal_wrestling_leagu.Common.Format.{decimal, digits}
use terminal_wrestling_leagu.Storage.Tx.{
  Driver, Work, pure, raise, query, known, exec_or, unless, fresh_id, now_fn, transact, on_pool,
  guarded, with_driver, and_then,
}
use terminal_wrestling_leagu.Storage.Seasons.{
  is_active_season, higher, active_season, close_season, clashes, put_season, create_next_season_tx,
  close_and_create, ensure_found, ensure_active_season_tx, ensure_active, found_season, get_active,
}
use terminal_wrestling_leagu.Storage.Ratings.{
  season_number, is_entry, rating_of, upsert_entry, later, joined_number, pick_later, latest_before,
  upsert_rating_tx, upsert, base_rating, new_entry, create_rating_tx, found_rating,
  get_or_create_rating_tx, get_or_create_for_active_season,
}
use terminal_wrestling_leagu.Storage.Replays.{
  Json, all_digits, parse_uint, has_replay, has_turn, replay_row, turn_row, find_replay, turns_of,
  insert_turn, sort_turns, put_replay, put_turn, insert_turn_tx, insert_turns_tx,
  insert_match_replay_tx, read_turn, read_turns, read_replay, get_match_replay,
}
use terminal_wrestling_leagu.Storage.Tx
use terminal_wrestling_leagu.Common.Answer.{Answer, failed}
use terminal_wrestling_leagu.Common.{ltb→lt}
use terminal_wrestling_leagu.Combat.Types.{TurnInput}
use terminal_wrestling_leagu.Storage.{MatchReplay, StorageError}
use terminal_wrestling_leagu.Storage.Preserved.{IsEncodable, IsReplayed, run_match-stored-replays}
use terminal_wrestling_leagu.Tests.Matchmaking.{engine, setup, env, stored, played}
use terminal_wrestling_leagu.Tests.Storage.{calm, new_tables, idle_service, final_match}

abbrev first_inputs : List ReplayTurn → List TurnInput
first_inputs [] = []
first_inputs (turn ∷ turns) = turn.inputs

-- An encoding that knows the match that was played.
abbrev json : Json
json = record {
  state_text = λ s. some (123 ∷ []);
  read_state = λ s. some stored.initial_state;
  inputs_text = λ inputs. some (91 ∷ []);
  read_inputs = λ s. some (first_inputs stored.turns);
}

abbrev match_of : Answer StorageError (FinalizedMatch Fraction) → FinalizedMatch Fraction
match_of (done m) = m
match_of (failed reason) = final_match

abbrev kept_match : FinalizedMatch Fraction
kept_match =
    match_of
      ((finalize_match idle_service json (finalize_call (109 ∷ []) 5 9 stored) calm new_tables).0)

kept :
    (finalize_match idle_service json (finalize_call (109 ∷ []) 5 9 stored) calm new_tables).0
    ≡ done kept_match
unfolding roll try_stun try_submission apply_grapple_transition attack take_effect land attempt act
    prepare_fighter_turn defense_by_action defense_attribute resolve_success_chance
    apply_zone_effects apply_regen fnv_new fnv_write little_endian append_hash_int state_code
    action_code archetype_code write_hash_int write_hash_bool write_hash_string write_hash_fighter
    hash_match_state find_input collect_inputs all_known default_input normalize_zone input_for
    sort_pair order_inputs canonicalize_inputs is_active action_base_cost action_move_spec clamp_int
    clamp max_int action_stamina_cost regen_for_endurance fatigue_penalty_bps success_chance_bps
    action_relevant_attribute base_damage damage_final stun_chance_bps submission_chance_bps
    is_offensive requires_hitbox move_for_action normalize_action state_name next_position
    take_position is_advance is_combo in_reach log log_skip log_tired deal_damage mark_zone stun
    knock_out advance_position submit break_hold gain_momentum log_resolved feint pay announce idle
    fighters_by_id action_of recover enter leave begin_turn exchange resolve_input resolve_inputs
    end_turn turn_result play_turn resolve_turn archetype_stats new_fighter new_match_state ◌+ℤ◌
    ◌-ℤ◌ to_u64 bytes str_eq str_lt new_deterministic_rng xorshift next_uint64 next_int snapshot
    standard_resolver new_combat_simulator step find_slot_by_player_id find_result index_results
    order_turn_results_by_slot resolve_result resolve_results collect_turn_inputs count_stuns
    relative_time record_turn play_canonical play_inputs play_round run_turns map_method map_result
    initial_match open_table finalize_params finish_match run_match fnv32_write archetype_of_hash
    pick_archetype seed_for_pair seed_with_salt idle_input normalize_turn_input decide_npc_input
    wait_for_turn_input collect take_over resolve_timeout resolve_turn_input Tx.◌>>=◌ decimal digits
    pure raise query known exec_or unless fresh_id now_fn transact on_pool guarded with_driver
    and_then is_active_season higher active_season close_season clashes put_season
    create_next_season_tx close_and_create ensure_found ensure_active_season_tx ensure_active
    found_season get_active season_number is_entry rating_of upsert_entry later joined_number
    pick_later latest_before upsert_rating_tx upsert base_rating new_entry create_rating_tx
    found_rating get_or_create_rating_tx get_or_create_for_active_season all_digits parse_uint
    has_replay has_turn replay_row turn_row find_replay turns_of insert_turn sort_turns put_replay
    put_turn insert_turn_tx insert_turns_tx insert_match_replay_tx read_turn read_turns read_replay
    get_match_replay winner_scores draw_scores scores_for_result accept_params match_duration_ms
    finalized_row has_match put_match has_result put_result insert_match_tx insert_match_result_tx
    rated_entry insert_replay_tx store_match updated rate_match finalize_tx finalize_scored
    finalize_match completed_row create_match finalize_call
kept = refl

encodable : IsEncodable json stored
unfolding roll try_stun try_submission apply_grapple_transition attack take_effect land attempt act
    prepare_fighter_turn defense_by_action defense_attribute resolve_success_chance
    apply_zone_effects apply_regen fnv_new fnv_write little_endian append_hash_int state_code
    action_code archetype_code write_hash_int write_hash_bool write_hash_string write_hash_fighter
    hash_match_state find_input collect_inputs all_known default_input normalize_zone input_for
    sort_pair order_inputs canonicalize_inputs is_active action_base_cost action_move_spec clamp_int
    clamp max_int action_stamina_cost regen_for_endurance fatigue_penalty_bps success_chance_bps
    action_relevant_attribute base_damage damage_final stun_chance_bps submission_chance_bps
    is_offensive requires_hitbox move_for_action normalize_action state_name next_position
    take_position is_advance is_combo in_reach log log_skip log_tired deal_damage mark_zone stun
    knock_out advance_position submit break_hold gain_momentum log_resolved feint pay announce idle
    fighters_by_id action_of recover enter leave begin_turn exchange resolve_input resolve_inputs
    end_turn turn_result play_turn resolve_turn archetype_stats new_fighter new_match_state ◌+ℤ◌
    ◌-ℤ◌ to_u64 bytes str_eq str_lt new_deterministic_rng xorshift next_uint64 next_int snapshot
    standard_resolver new_combat_simulator step find_slot_by_player_id find_result index_results
    order_turn_results_by_slot resolve_result resolve_results collect_turn_inputs count_stuns
    relative_time record_turn play_canonical play_inputs play_round run_turns map_method map_result
    initial_match open_table finalize_params finish_match run_match fnv32_write archetype_of_hash
    pick_archetype seed_for_pair seed_with_salt idle_input normalize_turn_input decide_npc_input
    wait_for_turn_input collect take_over resolve_timeout resolve_turn_input
encodable = ((λ text e. refl), ((λ text e. refl, ltb→lt _ _ refl, ltb→lt _ _ refl), tt))

none_yet : turns_of (109 ∷ []) new_tables.tables.replay_turns ≡ []
unfolding turns_of
none_yet = refl

run_match-stored-replays_example :
    (r : MatchReplay) × ((get_match_replay json (109 ∷ []) calm (
        (finalize_match idle_service json
          (finalize_call (109 ∷ []) 5 9 stored)
          calm
          new_tables).1)).0
      ≡ done r)
    × IsReplayed r
run_match-stored-replays_example =
    run_match-stored-replays idle_service json engine env setup stored (109 ∷ []) 5 9 calm calm
      new_tables kept_match refl refl (omega arith) played refl none_yet encodable (λ n. refl) kept
