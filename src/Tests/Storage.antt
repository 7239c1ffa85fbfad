-- ===== src/Tests/Storage.antt =====
-- The ratings and the database on concrete calls.
use terminal_wrestling_leagu.Common.{
  ℕ, ◌*◌, ◌^◌, ◌≡◌, refl, sym, ap, Bool, false, some, List, [], ◌∷◌, ltb, leb, ◌==◌, arith, Option,
  none,
}
use terminal_wrestling_leagu.Common.Answer.{done, Yields, ◌>>=◌}
use terminal_wrestling_leagu.Common.Float64.{Float64, IsRounded}
use terminal_wrestling_leagu.Common.Int.{pos}
use terminal_wrestling_leagu.Common.Text.{is_empty, Str, str_eq}
use terminal_wrestling_leagu.Common.Format.{decimal, digits}
use terminal_wrestling_leagu.Combat.Types.{
  MatchState, FighterState, archetype_balanced, state_neutral, no_effects, action_none, no_outcome,
}
use terminal_wrestling_leagu.Ranking.{
  OpponentResult, default_config, default_rating, is_valid, is_zero_rating, completed_config,
  not_positive, validate_rating, validate_config, validate_opponent, validate_opponents,
  normalize_rating, to_mu, from_mu, to_phi, from_phi, g, expected, accumulate,
  apply_season_soft_reset,
}
use terminal_wrestling_leagu.Ranking.Limits.{
  IsLimited, default_rating-IsLimited, update_rating-IsLimited,
}
use terminal_wrestling_leagu.Ranking.Solver.{
  new_glicko2_service, sigma_equation, search_bound, narrow, sigma_result, solve_sigma_prime, rate,
  rested, rate_opponents, update_rating,
}
use terminal_wrestling_leagu.Storage.Tx.{
  Driver, Work, pure, raise, query, known, exec_or, unless, fresh_id, now_fn, transact, on_pool,
  guarded, with_driver, and_then,
}
use terminal_wrestling_leagu.Storage.Seasons.{
  is_active_season, higher, active_season, close_season, clashes, put_season, create_next_season_tx,
  close_and_create, ensure_found, ensure_active_season_tx, ensure_active, found_season, get_active,
}
use terminal_wrestling_leagu.Storage.Ratings.{
  season_number, is_entry, rating_of, upsert_entry, later, joined_number, pick_later, latest_before,
  upsert_rating_tx, upsert, base_rating, new_entry, create_rating_tx, found_rating,
  get_or_create_rating_tx, get_or_create_for_active_season,
}
use terminal_wrestling_leagu.Storage.Replays.{
  Json, all_digits, parse_uint, has_replay, has_turn, replay_row, turn_row, find_replay, turns_of,
  insert_turn, sort_turns, put_replay, put_turn, insert_turn_tx, insert_turns_tx,
  insert_match_replay_tx, read_turn, read_turns, read_replay, get_match_replay,
}
use terminal_wrestling_leagu.Storage.Matches.{
  FinalizeParams, FinalizedMatch, winner_scores, draw_scores, scores_for_result, accept_params,
  match_duration_ms, finalized_row, has_match, put_match, has_result, put_result, insert_match_tx,
  insert_match_result_tx, rated_entry, insert_replay_tx, store_match, updated, rate_match,
  finalize_tx, finalize_scored, finalize_match, completed_row, create_match,
}
use terminal_wrestling_leagu.Storage.Players.{player_by_handle, player_by_id}
use terminal_wrestling_leagu.Server.Ensurer.{ensure_player_session}
use terminal_wrestling_leagu.Server.Ensured.{HasSession, ensure_player_session_lem}
use terminal_wrestling_leagu.Storage.{
  RatingEntry, Player, Season, season_status_active, MatchReplayWrite,
}
use terminal_wrestling_leagu.Storage.Tx
use terminal_wrestling_leagu.Storage.Reach.{
  migrated, no_tables, by_ensure_active, by_upsert, by_finalize_match, Reach-IsSound,
}
use terminal_wrestling_leagu.Storage.Sound.{IsSound}
use terminal_wrestling_leagu.Storage.Retold.{IsReadable, shown_replay, finalize-get_match_replay}
use terminal_wrestling_leagu.Matchmaking.Match.{match_result_ko}
use terminal_wrestling_leagu.Ranking.{Service}

-- Decimal fractions, n / 10 ^ k, with operations that keep one of their arguments.
abbrev pub Fraction : Type 0
Fraction = ℕ × ℕ

abbrev compare_fractions : (ℕ → ℕ → Bool) → Fraction → Fraction → Bool
compare_fractions f (a, k) (b, j) = f (a * 10 ^ j) (b * 10 ^ k)

instance abbrev pub fraction_float : Float64 Fraction
fraction_float = record {
  literal = λ n k. (n, k);
  pi = (3, 0);
  plus = λ x y. y;
  minus = λ x y. x;
  times = λ x y. x;
  over = λ x y. x;
  power = λ x y. x;
  least = λ x y. x;
  negated = λ x. x;
  sqrt = λ x. x;
  exp = λ x. x;
  log = λ x. x;
  abs = λ x. (0, 0);
  round = λ x. x;
  lt = compare_fractions ltb;
  le = compare_fractions leb;
  eq = compare_fractions λ a b. a == b;
  is_nan = λ x. false;
  is_inf = λ x. false;
}

fraction-IsRounded : IsRounded Fraction
fraction-IsRounded = record { literal_mono = λ a k b j h. h }

abbrev won_once : List (OpponentResult Fraction)
won_once = record { opponent = default_rating; score = (1, 0) } ∷ []

-- The update gives a rating.
updated_rating :
    update_rating 3 default_config default_rating won_once
    ≡ done (record { r = (1500, 0); rd = (30, 0); sigma = (6, 2) })
unfolding ◌>>=◌ is_valid is_zero_rating completed_config not_positive validate_rating
    validate_config validate_opponent validate_opponents normalize_rating to_mu from_mu to_phi
    from_phi g expected accumulate apply_season_soft_reset sigma_equation search_bound narrow
    sigma_result solve_sigma_prime rate rested rate_opponents update_rating
updated_rating = refl

update_rating-IsLimited_example :
    Yields IsLimited (update_rating 3 default_config default_rating won_once)
update_rating-IsLimited_example =
    update_rating-IsLimited fraction-IsRounded 3 default_config default_rating won_once

abbrev fighter : Str → FighterState
fighter = λ id. record {
  player_id = id;
  archetype = archetype_balanced;
  stats = record { power = 6; technique = 6; agility = 6; endurance = 6 };
  hp = 100;
  stamina = 100;
  momentum = 0;
  state = state_neutral;
  effects = no_effects;
  last_action = action_none;
  last_action_success = false;
  last_offensive_hit_turn = 0;
}

abbrev first_state : MatchState
first_state = record {
  turn = 0;
  p1 = fighter (97 ∷ []);
  p2 = fighter (98 ∷ []);
  combat_state = state_neutral;
  distance = 2;
  rng_state = 7;
  outcome = no_outcome;
}

-- An encoding that knows one state and no inputs.
abbrev plain_json : Json
plain_json = record {
  state_text = λ s. some (123 ∷ []);
  read_state = λ s. some first_state;
  inputs_text = λ inputs. some (91 ∷ []);
  read_inputs = λ s. some [];
}

abbrev short_replay : MatchReplayWrite
short_replay = record {
  seed = 11;
  initial_state = first_state;
  turns =
      record {
        turn = 1;
        relative_ms = pos 40;
        inputs = [];
        checksums = record { state_hash = 12; roll_hash = 345 };
      }
      ∷ record {
        turn = 2;
        relative_ms = pos 90;
        inputs = [];
        checksums = record { state_hash = 6; roll_hash = 78 };
      }
      ∷ [];
}

abbrev given_params : FinalizeParams
given_params = record {
  match_id = 109 ∷ [];
  player1_id = 97 ∷ [];
  player2_id = 98 ∷ [];
  winner_id = some (97 ∷ []);
  result_type = match_result_ko;
  started_at = 1000000000;
  ended_at = 3000000000;
  replay = some short_replay;
}

abbrev pub calm : Driver
calm = record { fails = λ n. false; new_id = λ n. 115 ∷ n ∷ []; now = λ n. 3000000001 }

abbrev pub new_tables : Work Fraction
new_tables = record { tables = no_tables; calls = 0 }

-- A service that leaves ratings as they are.
abbrev pub idle_service : Service Fraction
idle_service = record { update = λ x opps. done x }

abbrev first_season : Season
first_season = record {
  id = 115 ∷ 2 ∷ [];
  number = 1;
  starts_at = 3000000000;
  ends_at = 2592003000000000;
  status = season_status_active;
  created_at = 3000000000;
  updated_at = 3000000000;
}

abbrev pub final_match : FinalizedMatch Fraction
final_match = record {
  match_row = record {
    id = 109 ∷ [];
    season_id = 115 ∷ 2 ∷ [];
    player1_id = 97 ∷ [];
    player2_id = 98 ∷ [];
    winner_id = some (97 ∷ []);
    result_type = match_result_ko;
    started_at = 1000000000;
    ended_at = 3000000000;
    duration_ms = pos 2000;
    created_at = 3000000001;
  };
  season = first_season;
  player1_old = default_rating;
  player1_new = default_rating;
  player2_old = default_rating;
  player2_new = default_rating;
  player1_score = (1, 0);
  player2_score = (0, 0);
}

-- The match is stored.
ends : (finalize_match idle_service plain_json given_params calm new_tables).0 ≡ done final_match
unfolding Tx.◌>>=◌ str_eq decimal digits pure raise query known exec_or unless fresh_id now_fn
    transact on_pool guarded with_driver and_then is_active_season higher active_season close_season
    clashes put_season create_next_season_tx close_and_create ensure_found ensure_active_season_tx
    ensure_active found_season get_active season_number is_entry rating_of upsert_entry later
    joined_number pick_later latest_before upsert_rating_tx upsert base_rating new_entry
    create_rating_tx found_rating get_or_create_rating_tx get_or_create_for_active_season all_digits
    parse_uint has_replay has_turn replay_row turn_row find_replay turns_of insert_turn sort_turns
    put_replay put_turn insert_turn_tx insert_turns_tx insert_match_replay_tx read_turn read_turns
    read_replay get_match_replay winner_scores draw_scores scores_for_result accept_params
    match_duration_ms finalized_row has_match put_match has_result put_result insert_match_tx
    insert_match_result_tx rated_entry insert_replay_tx store_match updated rate_match finalize_tx
    finalize_scored finalize_match completed_row create_match
ends = refl

no_turns : turns_of (109 ∷ []) new_tables.tables.replay_turns ≡ []
unfolding turns_of
no_turns = refl

readable : IsReadable plain_json short_replay
readable = (
  λ text e. refl,
  omega arith,
  ((λ text e. refl, omega arith, omega arith), ((λ text e. refl, omega arith, omega arith), tt)),
  (omega arith, (omega arith, tt)),
)

finalize-get_match_replay_example :
    (get_match_replay plain_json
      (109 ∷ [])
      calm
      ((finalize_match idle_service plain_json given_params calm new_tables).1)).0
    ≡ done (shown_replay (109 ∷ []) short_replay 3000000001)
finalize-get_match_replay_example =
    finalize-get_match_replay idle_service plain_json given_params short_replay refl calm calm
      new_tables final_match refl no_turns readable (λ n. refl) ends

abbrev brought_entry : RatingEntry Fraction
brought_entry = record {
  player_id = 97 ∷ [];
  season_id = 115 ∷ [];
  rating = default_rating;
  last_match_at = none;
  updated_at = 5;
}

Reach-IsSound_example : IsSound (
    (finalize_match
      (new_glicko2_service 3 default_config)
      plain_json
      given_params
      calm
      ((upsert brought_entry calm ((ensure_active 5 calm new_tables).1)).1)).1.tables)
Reach-IsSound_example =
    Reach-IsSound fraction-IsRounded (λ entry. IsLimited entry.rating) (λ entry h. h) 3
      default_config plain_json _
      (by_finalize_match given_params calm _ (
        by_upsert brought_entry calm _ (default_rating-IsLimited fraction-IsRounded)
          (by_ensure_active 5 calm _ (migrated 0))))

abbrev rival : Player
rival = record { id = 120 ∷ []; handle = 104 ∷ []; created_at = 1; updated_at = 1 }

-- Another session makes the player between the lookup and the creation.
abbrev race : Work Fraction → Work Fraction
race = λ w. record w { tables = record (w.tables) { players = rival ∷ [] } }

rival_named :
    (p : Player) → player_by_handle (104 ∷ []) (rival ∷ []) ≡ some p → is_empty p.id ≡ false
unfolding player_by_handle str_eq
rival_named p h =
    ap (λ (o : Option Player). elim o [ none ↦ false | some q ↦ is_empty q.id ]) (sym h)

nobody_named : (p : Player) → player_by_handle (104 ∷ []) [] ≡ some p → is_empty p.id ≡ false
unfolding player_by_handle
nobody_named p h = absurd (ground arith)

new_id_free : player_by_id (115 ∷ 0 ∷ []) (rival ∷ []) ≡ none
unfolding player_by_id str_eq
new_id_free = refl

ensure_player_session_lem_example :
    HasSession (104 ∷ []) (ensure_player_session race (104 ∷ []) calm new_tables)
ensure_player_session_lem_example =
    ensure_player_session_lem calm (λ n. refl) race (104 ∷ []) new_tables nobody_named rival_named
      refl new_id_free
