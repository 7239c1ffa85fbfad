-- ===== src/Storage.antt =====
-- internal/storage/repositories.go and repositories_m5.go: the rows and the tables of the database,
-- whose columns and keys db/migrations declares. A time counts nanoseconds and 0 is the zero time.
-- That the database rounds a time to microseconds, and foreign keys, are left out.
pub mod Tx
pub mod Players
pub mod Seasons
pub mod Ratings
pub mod Replays
pub mod Matches
pub mod Profiles
pub mod Timeline
pub mod Sound
pub mod Kept
pub mod Counted
pub mod Methods
pub mod Reach
pub mod Frame
pub mod Stored
pub mod ReadBack
pub mod Retold
pub mod Scores
pub mod Preserved
use terminal_wrestling_leagu.Common.{ℕ, Bool, Option, List}
use terminal_wrestling_leagu.Common.Int.{ℤ}
use terminal_wrestling_leagu.Common.Text.{Str}
use terminal_wrestling_leagu.Combat.Types.{MatchState, TurnInput, TurnChecksum}
use terminal_wrestling_leagu.Matchmaking.Match.{MatchResultType, ReplayTurn}
use terminal_wrestling_leagu.Matchmaking.Tutorial.{TutorialResult}
use terminal_wrestling_leagu.Ranking.{Rating, RankingError}

abbrev pub Time : Type 0
Time = ℕ

pub data SeasonStatus : Type 0 where
  season_status_active season_status_closed : SeasonStatus

pub record Player : Type 0 where
  pub id : Str
  pub handle : Str
  pub created_at : Time
  pub updated_at : Time

pub record Season : Type 0 where
  pub id : Str
  pub number : ℕ
  pub starts_at : Time
  pub ends_at : Time
  pub status : SeasonStatus
  pub created_at : Time
  pub updated_at : Time

-- `Match`.
pub record MatchRow : Type 0 where
  pub id : Str
  pub season_id : Str
  pub player1_id : Str
  pub player2_id : Str
  pub winner_id : Option Str
  pub result_type : MatchResultType
  pub started_at : Time
  pub ended_at : Time
  pub duration_ms : ℤ
  pub created_at : Time

pub record RatingEntry (F : Type 0) : Type 0 where
  pub player_id : Str
  pub season_id : Str
  pub rating : Rating F
  pub last_match_at : Option Time
  pub updated_at : Time

-- A row of `match_results`.
pub record MatchResultRow (F : Type 0) : Type 0 where
  pub match_id : Str
  pub player_id : Str
  pub opponent_id : Str
  pub score : F
  pub before : Rating F
  pub after : Rating F
  pub created_at : Time

-- A row of `match_replays`.
pub record ReplayRow : Type 0 where
  pub match_id : Str
  pub seed_text : Str
  pub initial_state_json : Str
  pub turn_count : ℕ
  pub created_at : Time

-- A row of `match_replay_turns`.
pub record ReplayTurnRow : Type 0 where
  pub match_id : Str
  pub turn : ℕ
  pub relative_ms : ℤ
  pub inputs_json : Str
  pub state_hash_text : Str
  pub roll_hash_text : Str
  pub created_at : Time

pub record PlayerProfile : Type 0 where
  pub player_id : Str
  pub tutorial_completed : Bool
  pub tutorial_completed_at : Option Time
  pub tutorial_runs : ℕ
  pub created_at : Time
  pub updated_at : Time

pub record TutorialRunRow : Type 0 where
  pub id : Str
  pub player_id : Str
  pub result : TutorialResult
  pub started_at : Time
  pub ended_at : Time
  pub duration_ms : ℕ
  pub created_at : Time

pub record MatchReplayWrite : Type 0 where
  pub seed : ℕ
  pub initial_state : MatchState
  pub turns : List ReplayTurn

pub record MatchReplayTurn : Type 0 where
  pub turn : ℕ
  pub relative_ms : ℤ
  pub inputs : List TurnInput
  pub checksums : TurnChecksum
  pub created_at : Time

pub record MatchReplay : Type 0 where
  pub match_id : Str
  pub seed : ℕ
  pub initial_state : MatchState
  pub turns : List MatchReplayTurn
  pub created_at : Time

-- The tables, each with its rows in some order.
pub record Tables (F : Type 0) : Type 0 where
  pub players : List Player
  pub seasons : List Season
  pub matches : List MatchRow
  pub ratings : List (RatingEntry F)
  pub results : List (MatchResultRow F)
  pub replays : List ReplayRow
  pub replay_turns : List ReplayTurnRow
  pub profiles : List PlayerProfile
  pub tutorial_runs : List TutorialRunRow

pub data StorageError : Type 0 where
  err_not_found : StorageError
  -- What the methods refuse.
  players_required players_equal times_required ended_early : StorageError
  draw_with_winner winner_required unknown_winner : StorageError
  player_id_required match_id_required duration_negative : StorageError
  rating_refused : RankingError → StorageError
  encode_failed decode_failed parse_failed : StorageError
  -- What the database refuses.
  begin_failed commit_failed : StorageError
  insert_failed unique_violation update_failed query_failed : StorageError
