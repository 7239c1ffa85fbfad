-- ===== src/Storage/Matches.antt =====
-- internal/storage/repositories.go: `FinalizeMatch` and `CreateMatch`. The service that updates
-- ratings is a parameter. `MatchResultType` has no values beyond its four constants.
use terminal_wrestling_leagu.Common.{
  ℕ, ◌-◌, ◌/◌, ◌^◌, Bool, false, ◌||◌, ◌&&◌, Option, none, some, List, [], ◌∷◌, min, if◌then◌else◌,
  ltb, ◌==◌,
}
use terminal_wrestling_leagu.Common.Int.{pos, ltb_ℤ}
use terminal_wrestling_leagu.Common.Text.{Str, str_eq, is_empty}
use terminal_wrestling_leagu.Common.Answer.{Answer, failed, done, wrap}
use terminal_wrestling_leagu.Common.Float64.{Float64}
use terminal_wrestling_leagu.Matchmaking.Match.{MatchResultType, match_result_draw}
use terminal_wrestling_leagu.Ranking.{Rating, Service, score_loss, score_draw, score_win}
use terminal_wrestling_leagu.Storage.{
  Time, Season, MatchRow, RatingEntry, MatchResultRow, MatchReplayWrite, Tables, StorageError,
  players_required, players_equal, times_required, ended_early, draw_with_winner, winner_required,
  unknown_winner, duration_negative, rating_refused, insert_failed,
}
use terminal_wrestling_leagu.Storage.Tx.{
  Tx, unless, Call, pure, exec, known, now_fn, ◌>>=◌, transact, on_pool, guarded, with_driver,
  Driver, Work,
}
use terminal_wrestling_leagu.Storage.Seasons.{ensure_active_season_tx}
use terminal_wrestling_leagu.Storage.Ratings.{get_or_create_rating_tx, upsert_rating_tx}
use terminal_wrestling_leagu.Storage.Replays.{Json, insert_match_replay_tx}

-- `FinalizeMatchParams`, with the times and the identifier.
pub record FinalizeParams : Type 0 where
  pub match_id : Str
  pub player1_id : Str
  pub player2_id : Str
  pub winner_id : Option Str
  pub result_type : MatchResultType
  pub started_at : Time
  pub ended_at : Time
  pub replay : Option MatchReplayWrite

pub record FinalizedMatch (F : Type 0) : Type 0 where
  pub match_row : MatchRow
  pub season : Season
  pub player1_old : Rating F
  pub player1_new : Rating F
  pub player2_old : Rating F
  pub player2_new : Rating F
  pub player1_score : F
  pub player2_score : F

-- What the transaction has found out before it writes the match.
pub record Rated (F : Type 0) : Type 0 where
  pub season : Season
  pub entry1 : RatingEntry F
  pub entry2 : RatingEntry F
  pub new1 : Rating F
  pub new2 : Rating F

module _ {F : Type 0} ⦃fl : Float64 F⦄ where
  unfoldable pub winner_scores : Str → Str → Option Str → Answer StorageError (F × F)
  winner_scores player1 player2 none = failed winner_required
  winner_scores player1 player2 (some winner) =
      if str_eq winner player1
      then done (score_win, score_loss)
      else if str_eq winner player2
      then done (score_loss, score_win)
      else failed unknown_winner

  unfoldable pub draw_scores : Option Str → Answer StorageError (F × F)
  draw_scores none = done (score_draw, score_draw)
  draw_scores (some winner) = failed draw_with_winner

  unfoldable pub scores_for_result : FinalizeParams → Answer StorageError (F × F)
  scores_for_result params = elim params.result_type [
    | match_result_draw ↦ draw_scores params.winner_id
    | _ ↦ winner_scores params.player1_id params.player2_id params.winner_id
  ]

  -- The tests before the transaction.
  unfoldable pub accept_params : FinalizeParams → Answer StorageError (F × F)
  accept_params params =
      if is_empty params.player1_id || is_empty params.player2_id
      then failed players_required
      else if str_eq params.player1_id params.player2_id
      then failed players_equal
      else if params.started_at == 0 || params.ended_at == 0
      then failed times_required
      else if ltb params.ended_at params.started_at
      then failed ended_early
      else scores_for_result params

-- A match without an identifier gets one.
abbrev pub identified : Str → FinalizeParams → FinalizeParams
identified id params = record params {
  match_id = if is_empty params.match_id then id else params.match_id;
}

-- `Milliseconds` of `Sub`, which stops at the greatest duration.
unfoldable pub match_duration_ms : Time → Time → ℕ
match_duration_ms started ended = min (ended - started) (2 ^ 63 - 1) / 1000000

unfoldable pub finalized_row : FinalizeParams → Season → Time → MatchRow
finalized_row params season now = record {
  id = params.match_id;
  season_id = season.id;
  player1_id = params.player1_id;
  player2_id = params.player2_id;
  winner_id = params.winner_id;
  result_type = params.result_type;
  started_at = params.started_at;
  ended_at = params.ended_at;
  duration_ms = pos (match_duration_ms params.started_at params.ended_at);
  created_at = now;
}

unfoldable pub has_match : Str → List MatchRow → Bool
has_match id [] = false
has_match id (m ∷ ms) = str_eq m.id id || has_match id ms

module _ {F : Type 0} where
  unfoldable pub put_match : MatchRow → Tables F → Option (Tables F)
  put_match m t =
      unless
        (has_match m.id t.matches
          || str_eq m.player1_id m.player2_id
          || ltb m.ended_at m.started_at
          || ltb_ℤ m.duration_ms (pos 0))
        (record t { matches = m ∷ t.matches })

  unfoldable pub has_result : Str → Str → List (MatchResultRow F) → Bool
  has_result id player [] = false
  has_result id player (r ∷ rs) =
      (str_eq r.match_id id && str_eq r.player_id player) || has_result id player rs

  unfoldable pub put_result : MatchResultRow F → Tables F → Option (Tables F)
  put_result row t =
      unless
        (has_result row.match_id row.player_id t.results || str_eq row.player_id row.opponent_id)
        (record t { results = row ∷ t.results })

  unfoldable pub insert_match_tx : MatchRow → Tx F Unit
  insert_match_tx m = exec insert_failed (put_match m)

  unfoldable pub insert_match_result_tx : MatchResultRow F → Tx F Unit
  insert_match_result_tx row = exec insert_failed (put_result row)

  unfoldable pub rated_entry : RatingEntry F → Rating F → Time → Time → RatingEntry F
  rated_entry entry new ended now = record entry {
    rating = new;
    last_match_at = some ended;
    updated_at = now;
  }

  unfoldable pub insert_replay_tx : Json → Str → Time → Option MatchReplayWrite → Tx F Unit
  insert_replay_tx json id now none = pure tt
  insert_replay_tx json id now (some replay) = insert_match_replay_tx json id replay now

  -- The writes of `FinalizeMatch`.
  unfoldable pub store_match : Json → FinalizeParams → Rated F → F × F → Time → Tx F Unit
  store_match json params x (score1, score2) now =
      insert_match_tx (finalized_row params x.season now) >>= λ _.
      insert_replay_tx json params.match_id now params.replay >>= λ _.
      insert_match_result_tx (record {
        match_id = params.match_id;
        player_id = params.player1_id;
        opponent_id = params.player2_id;
        score = score1;
        before = x.entry1.rating;
        after = x.new1;
        created_at = now;
      })
      >>= λ _.
          insert_match_result_tx (record {
            match_id = params.match_id;
            player_id = params.player2_id;
            opponent_id = params.player1_id;
            score = score2;
            before = x.entry2.rating;
            after = x.new2;
            created_at = now;
          })
          >>= λ _. upsert_rating_tx (rated_entry x.entry1 x.new1 params.ended_at now) >>= λ _.
              upsert_rating_tx (rated_entry x.entry2 x.new2 params.ended_at now)

module _ {F : Type 0} ⦃fl : Float64 F⦄ where
  -- The new rating of one player from the rating of the other.
  unfoldable pub updated : Service F → Rating F → Rating F → F → Answer StorageError (Rating F)
  updated svc mine other score =
      wrap rating_refused (svc.update mine (record { opponent = other; score = score } ∷ []))

  -- The reads of `FinalizeMatch`, and what it makes of them.
  unfoldable pub rate_match : Service F → FinalizeParams → F × F → Tx F (Rated F)
  rate_match svc params (score1, score2) = ensure_active_season_tx params.ended_at >>= λ season.
      get_or_create_rating_tx params.player1_id season params.ended_at >>= λ entry1.
      get_or_create_rating_tx params.player2_id season params.ended_at >>= λ entry2.
      known (updated svc entry1.rating entry2.rating score1) >>= λ new1.
      known (updated svc entry2.rating entry1.rating score2) >>= λ new2.
      pure (record { season = season; entry1 = entry1; entry2 = entry2; new1 = new1; new2 = new2 })

  unfoldable pub finalize_tx : Service F → Json → FinalizeParams → F × F → Tx F (FinalizedMatch F)
  finalize_tx svc json params scores = rate_match svc params scores >>= λ x. now_fn >>= λ now.
      store_match json params x scores now >>= λ _. pure (record {
        match_row = finalized_row params x.season now;
        season = x.season;
        player1_old = x.entry1.rating;
        player1_new = x.new1;
        player2_old = x.entry2.rating;
        player2_new = x.new2;
        player1_score = scores.0;
        player2_score = scores.1;
      })

  -- The transaction, if the parameters are accepted.
  unfoldable pub finalize_scored :
      Service F → Json → FinalizeParams → Answer StorageError (F × F) → Call F (FinalizedMatch F)
  finalize_scored svc json params (failed reason) d w = (failed reason, w)
  finalize_scored svc json params (done scores) d w =
      transact (finalize_tx svc json params scores) d w

  unfoldable pub finalize_match : Service F → Json → FinalizeParams → Call F (FinalizedMatch F)
  finalize_match svc json params d w =
      finalize_scored svc json (identified (d.new_id w.calls) params) (accept_params params) d w

-- The row with what `CreateMatch` fills in.
unfoldable pub completed_row : {F : Type 0} → Driver → Work F → MatchRow → MatchRow
completed_row d w m = record m {
  id = if is_empty m.id then d.new_id w.calls else m.id;
  created_at = if m.created_at == 0 then d.now w.calls else m.created_at;
}

unfoldable pub create_match : {F : Type 0} → MatchRow → Call F MatchRow
create_match m = guarded (m.started_at == 0 || m.ended_at == 0) times_required (
    guarded (ltb_ℤ m.duration_ms (pos 0)) duration_negative (
      with_driver
        λ d w. on_pool (insert_match_tx (completed_row d w m) >>= λ _. pure (completed_row d w m))))
