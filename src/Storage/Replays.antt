-- ===== src/Storage/Replays.antt =====
-- internal/storage/repositories.go: replays. What `encoding/json` does is a parameter.
use terminal_wrestling_leagu.Common.{
  ℕ, ◌^◌, Bool, true, false, not, ◌||◌, ◌&&◌, Option, none, some, List, [], ◌∷◌, ◌++◌,
  if◌then◌else◌, ltb, leb, ◌==◌, length,
}
use terminal_wrestling_leagu.Common.Int.{pos, ltb_ℤ}
use terminal_wrestling_leagu.Common.Text.{Str, str_eq, is_empty}
use terminal_wrestling_leagu.Common.Format.{decimal, value_from, is_between}
use terminal_wrestling_leagu.Common.Answer.{Answer, failed, done}
use terminal_wrestling_leagu.Combat.Types.{MatchState, TurnInput}
use terminal_wrestling_leagu.Matchmaking.Match.{ReplayTurn}
use terminal_wrestling_leagu.Storage.{
  Time, ReplayRow, ReplayTurnRow, MatchReplayWrite, MatchReplayTurn, MatchReplay, Tables,
  StorageError, err_not_found, match_id_required, query_failed, insert_failed, encode_failed,
  decode_failed, parse_failed,
}
use terminal_wrestling_leagu.Storage.Tx.{
  Tx, unless, Call, pure, raise, query, exec, known, ◌>>=◌, on_pool,
}

-- `json.Marshal` and `json.Unmarshal` on the two types that replays hold; `none` is an error.
pub record Json : Type 0 where
  pub state_text : MatchState → Option Str
  pub read_state : Str → Option MatchState
  pub inputs_text : List TurnInput → Option Str
  pub read_inputs : Str → Option (List TurnInput)

abbrev pub or_fail : {A : Type 0} → StorageError → Option A → Answer StorageError A
or_fail reason none = failed reason
or_fail reason (some a) = done a

unfoldable pub all_digits : Str → Bool
all_digits [] = true
all_digits (b ∷ s) = is_between 48 57 b && all_digits s

-- `strconv.ParseUint(s, 10, 64)`.
unfoldable pub parse_uint : Str → Option ℕ
parse_uint s =
    if is_empty s || not (all_digits s) || not (ltb (value_from 0 s) (2 ^ 64))
    then none
    else some (value_from 0 s)

unfoldable pub has_replay : Str → List ReplayRow → Bool
has_replay id [] = false
has_replay id (row ∷ rows) = str_eq row.match_id id || has_replay id rows

unfoldable pub has_turn : Str → ℕ → List ReplayTurnRow → Bool
has_turn id turn [] = false
has_turn id turn (row ∷ rows) =
    (str_eq row.match_id id && row.turn == turn) || has_turn id turn rows

unfoldable pub replay_row : Str → MatchReplayWrite → Str → Time → ReplayRow
replay_row id replay text now = record {
  match_id = id;
  seed_text = decimal replay.seed;
  initial_state_json = text;
  turn_count = length replay.turns;
  created_at = now;
}

unfoldable pub turn_row : Str → ReplayTurn → Str → Time → ReplayTurnRow
turn_row id turn text now = record {
  match_id = id;
  turn = turn.turn;
  relative_ms = turn.relative_ms;
  inputs_json = text;
  state_hash_text = decimal turn.checksums.state_hash;
  roll_hash_text = decimal turn.checksums.roll_hash;
  created_at = now;
}

-- The first row of a match.
unfoldable pub find_replay : Str → List ReplayRow → Option ReplayRow
find_replay id [] = none
find_replay id (row ∷ rows) =
    let rest = find_replay id rows in if str_eq row.match_id id then some row else rest

-- `WHERE match_id = $1`.
unfoldable pub turns_of : Str → List ReplayTurnRow → List ReplayTurnRow
turns_of id [] = []
turns_of id (row ∷ rows) =
    let rest = turns_of id rows in if str_eq row.match_id id then row ∷ rest else rest

-- `ORDER BY turn ASC`.
unfoldable pub insert_turn : ReplayTurnRow → List ReplayTurnRow → List ReplayTurnRow
insert_turn row [] = row ∷ []
insert_turn row (r ∷ rows) =
    let rest = insert_turn row rows in if leb row.turn r.turn then row ∷ r ∷ rows else r ∷ rest

unfoldable pub sort_turns : List ReplayTurnRow → List ReplayTurnRow
sort_turns [] = []
sort_turns (row ∷ rows) = insert_turn row (sort_turns rows)

module _ {F : Type 0} where
  unfoldable pub put_replay : ReplayRow → Tables F → Option (Tables F)
  put_replay row t =
      unless (has_replay row.match_id t.replays) (record t { replays = row ∷ t.replays })

  -- The new row comes last; turns count from 1, and no time is negative.
  unfoldable pub put_turn : ReplayTurnRow → Tables F → Option (Tables F)
  put_turn row t =
      unless
        (has_turn row.match_id row.turn t.replay_turns
          || row.turn == 0
          || ltb_ℤ row.relative_ms (pos 0))
        (record t { replay_turns = t.replay_turns ++ (row ∷ []) })

  unfoldable pub insert_turn_tx : Json → Str → Time → ReplayTurn → Tx F Unit
  insert_turn_tx json id now turn =
      known (or_fail encode_failed (json.inputs_text turn.inputs)) >>= λ text.
      exec insert_failed (put_turn (turn_row id turn text now))

  unfoldable pub insert_turns_tx : Json → Str → Time → List ReplayTurn → Tx F Unit
  insert_turns_tx json id now [] = pure tt
  insert_turns_tx json id now (turn ∷ turns) =
      insert_turn_tx json id now turn >>= λ _. insert_turns_tx json id now turns

  unfoldable pub insert_match_replay_tx : Json → Str → MatchReplayWrite → Time → Tx F Unit
  insert_match_replay_tx json id replay now =
      known (or_fail encode_failed (json.state_text replay.initial_state)) >>= λ text.
      exec insert_failed (put_replay (replay_row id replay text now)) >>= λ _.
      insert_turns_tx json id now replay.turns

  -- One row of the query of turns.
  unfoldable pub read_turn : Json → ReplayTurnRow → Tx F MatchReplayTurn
  read_turn json row =
      known (or_fail decode_failed (json.read_inputs row.inputs_json)) >>= λ inputs.
      known (or_fail parse_failed (parse_uint row.state_hash_text)) >>= λ state_hash.
      known (or_fail parse_failed (parse_uint row.roll_hash_text)) >>= λ roll_hash. pure (record {
        turn = row.turn;
        relative_ms = row.relative_ms;
        inputs = inputs;
        checksums = record { state_hash = state_hash; roll_hash = roll_hash };
        created_at = row.created_at;
      })

  unfoldable pub read_turns : Json → List ReplayTurnRow → Tx F (List MatchReplayTurn)
  read_turns json [] = pure []
  read_turns json (row ∷ rows) =
      read_turn json row >>= λ turn. read_turns json rows >>= λ turns. pure (turn ∷ turns)

  unfoldable pub read_replay : Json → Str → Option ReplayRow → Tx F MatchReplay
  read_replay json id none = raise err_not_found
  read_replay json id (some row) =
      known (or_fail parse_failed (parse_uint row.seed_text)) >>= λ seed.
      known (or_fail decode_failed (json.read_state row.initial_state_json)) >>= λ initial.
      query query_failed (λ t. sort_turns (turns_of id t.replay_turns)) >>= λ rows.
      read_turns json rows >>= λ turns. pure (record {
        match_id = id;
        seed = seed;
        initial_state = initial;
        turns = turns;
        created_at = row.created_at;
      })

  unfoldable pub get_match_replay : Json → Str → Call F MatchReplay
  get_match_replay json id = on_pool (
      if is_empty id
      then raise match_id_required
      else query query_failed (λ t. find_replay id t.replays) >>= read_replay json id)
