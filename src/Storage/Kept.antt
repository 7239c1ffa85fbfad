-- ===== src/Storage/Kept.antt =====
-- internal/storage/repositories.go: `FinalizeMatch` keeps the tables of seasons and ratings sound.
use terminal_wrestling_leagu.Common.{Option, none, some, List, [], ◌∷◌}
use terminal_wrestling_leagu.Common.Answer.{Answer, failed, done, Yields, wrap}
use terminal_wrestling_leagu.Common.Float64.{Float64, IsRounded}
use terminal_wrestling_leagu.Common.Text.{Str}
use terminal_wrestling_leagu.Matchmaking.Match.{ReplayTurn}
use terminal_wrestling_leagu.Ranking.{Rating, RankingError, OpponentResult, Service}
use terminal_wrestling_leagu.Ranking.Limits.{IsLimited}
use terminal_wrestling_leagu.Storage.{
  Time, Season, MatchRow, MatchResultRow, ReplayRow, ReplayTurnRow, MatchReplayWrite, Tables,
  StorageError, insert_failed, rating_refused,
}
use terminal_wrestling_leagu.Storage.Tx.{known}
use terminal_wrestling_leagu.Storage.Tx.Hoare.{
  Hoare, Writes, pure-Hoare, exec-Hoare, known-Hoare, now_fn-Hoare, >>=-Hoare, weaken-Hoare,
  given-Hoare, unless-Writes,
}
use terminal_wrestling_leagu.Storage.Tx.Keeps.{Keeps, transact-Keeps}
use terminal_wrestling_leagu.Storage.Ratings.{get_or_create_rating_tx}
use terminal_wrestling_leagu.Storage.Replays.{
  Json, put_replay, put_turn, insert_turn_tx, insert_turns_tx, insert_match_replay_tx,
}
use terminal_wrestling_leagu.Storage.Matches.{
  FinalizeParams, FinalizedMatch, Rated, updated, rate_match, put_match, put_result,
  insert_match_tx, insert_match_result_tx, insert_replay_tx, store_match, finalize_tx,
  finalize_match, finalize_scored, accept_params, rated_entry,
}
use terminal_wrestling_leagu.Storage.Sound.{
  IsSound, IsSoundIn, upsert_rating_tx-Hoare, get_or_create_rating_tx-Hoare, ensure_season-Hoare,
}

anything : {E A : Type 0} {P : Type 0} (a : Answer E A) → P → Yields (λ _. P) a
anything (failed reason) p = tt
anything (done a) p = p

-- The writes of a match beside its ratings.
module _ {F : Type 0} ⦃fl : Float64 F⦄ (s : Season) where
  put_match-IsSoundIn :
      (m : MatchRow) (t : Tables F) → IsSoundIn s t → Writes (IsSoundIn s) (put_match m t)
  unfolding put_match
  put_match-IsSoundIn m t h = unless-Writes (IsSoundIn s) _ _ h

  put_result-IsSoundIn :
      (row : MatchResultRow F) (t : Tables F)
      → IsSoundIn s t
      → Writes (IsSoundIn s) (put_result row t)
  unfolding put_result
  put_result-IsSoundIn row t h = unless-Writes (IsSoundIn s) _ _ h

  put_replay-IsSoundIn :
      (row : ReplayRow) (t : Tables F) → IsSoundIn s t → Writes (IsSoundIn s) (put_replay row t)
  unfolding put_replay
  put_replay-IsSoundIn row t h = unless-Writes (IsSoundIn s) _ _ h

  put_turn-IsSoundIn :
      (row : ReplayTurnRow) (t : Tables F) → IsSoundIn s t → Writes (IsSoundIn s) (put_turn row t)
  unfolding put_turn
  put_turn-IsSoundIn row t h = unless-Writes (IsSoundIn s) _ _ h

  insert_match_tx-Hoare :
      (m : MatchRow) → Hoare {F = F} (IsSoundIn s) (insert_match_tx m) (λ _. IsSoundIn s)
  unfolding insert_match_tx
  insert_match_tx-Hoare m = exec-Hoare insert_failed _ (put_match-IsSoundIn m)

  insert_match_result_tx-Hoare :
      (row : MatchResultRow F)
      → Hoare {F = F} (IsSoundIn s) (insert_match_result_tx row) (λ _. IsSoundIn s)
  unfolding insert_match_result_tx
  insert_match_result_tx-Hoare row = exec-Hoare insert_failed _ (put_result-IsSoundIn row)

  insert_turns_tx-Hoare :
      (json : Json) (id : Str) (now : Time) (turns : List ReplayTurn)
      → Hoare {F = F} (IsSoundIn s) (insert_turns_tx json id now turns) (λ _. IsSoundIn s)
  unfolding insert_turns_tx insert_turn_tx
  insert_turns_tx-Hoare json id now [] = pure-Hoare tt λ t h. h
  insert_turns_tx-Hoare json id now (turn ∷ turns) =
      >>=-Hoare (λ _. IsSoundIn s)
        (>>=-Hoare (λ _. IsSoundIn s) (known-Hoare _ λ t h. anything _ h)
          λ text. exec-Hoare insert_failed _ (put_turn-IsSoundIn _))
        λ _. insert_turns_tx-Hoare json id now turns

  insert_replay_tx-Hoare :
      (json : Json) (id : Str) (now : Time) (replay : Option MatchReplayWrite)
      → Hoare {F = F} (IsSoundIn s) (insert_replay_tx json id now replay) (λ _. IsSoundIn s)
  unfolding insert_replay_tx insert_match_replay_tx
  insert_replay_tx-Hoare json id now none = pure-Hoare tt λ t h. h
  insert_replay_tx-Hoare json id now (some replay) =
      >>=-Hoare (λ _. IsSoundIn s) (known-Hoare _ λ t h. anything _ h)
        λ text.
          >>=-Hoare (λ _. IsSoundIn s) (exec-Hoare insert_failed _ (put_replay-IsSoundIn _))
            λ _. insert_turns_tx-Hoare json id now replay.turns

module _ {F : Type 0} ⦃fl : Float64 F⦄ where
  store_match-Hoare :
      (json : Json) (params : FinalizeParams) (x : Rated F) (scores : F × F) (now : Time)
      → IsLimited x.new1 × IsLimited x.new2
      → Hoare {F = F}
          (IsSoundIn x.season)
          (store_match json params x scores now)
          (λ _. IsSoundIn x.season)
  unfolding store_match rated_entry
  store_match-Hoare json params x (score1, score2) now (new1, new2) =
      let sound : Unit → Tables F → Type 0 = λ _. IsSoundIn x.season in
      >>=-Hoare sound (insert_match_tx-Hoare x.season _) λ _.
        >>=-Hoare sound (insert_replay_tx-Hoare x.season json params.match_id now params.replay)
          λ _. >>=-Hoare sound (insert_match_result_tx-Hoare x.season _) λ _.
            >>=-Hoare sound (insert_match_result_tx-Hoare x.season _) λ _.
              >>=-Hoare sound (upsert_rating_tx-Hoare x.season _ new1)
                λ _. upsert_rating_tx-Hoare x.season _ new2

-- A service that gives limited ratings only.
abbrev pub IsLimitedService : {F : Type 0} ⦃fl : Float64 F⦄ → Service F → Type 0
IsLimitedService {F} svc =
    (x : Rating F) (opps : List (OpponentResult F)) → Yields IsLimited (svc.update x opps)

-- Two new ratings that are limited, with the season that runs.
abbrev pub RatedIn : {F : Type 0} ⦃fl : Float64 F⦄ → Rated F → Tables F → Type 0
RatedIn x t = (IsLimited x.new1 × IsLimited x.new2) × IsSoundIn x.season t

module _ {F : Type 0} ⦃fl : Float64 F⦄ (rounded : IsRounded F) (svc : Service F)
    (limited : IsLimitedService svc) where
  wrap_with :
      (a : Answer RankingError (Rating F)) (P : Type 0)
      → P
      → Yields IsLimited a
      → Yields (λ new. IsLimited new × P) (wrap rating_refused a)
  wrap_with (failed reason) P p h = tt
  wrap_with (done new) P p h = (h, p)

  updated-Hoare :
      (P : Tables F → Type 0) (mine other : Rating F) (score : F)
      → Hoare P (known (updated svc mine other score)) (λ new t. IsLimited new × P t)
  unfolding updated
  updated-Hoare P mine other score = known-Hoare _ λ t p. wrap_with _ (P t) p (limited mine _)

  -- The entry is what it is; the tables are sound.
  entry-Hoare :
      (player : Str) (season : Season) (now : Time)
      → Hoare {F = F}
          (IsSoundIn season)
          (get_or_create_rating_tx player season now)
          (λ _. IsSoundIn season)
  entry-Hoare player season now =
      weaken-Hoare (λ t h. h) (λ e t h. h.1)
        (get_or_create_rating_tx-Hoare rounded player season now)

  rate_match-Hoare :
      (params : FinalizeParams) (scores : F × F)
      → Hoare IsSound (rate_match svc params scores) RatedIn
  unfolding rate_match
  rate_match-Hoare params (score1, score2) =
      >>=-Hoare IsSoundIn (ensure_season-Hoare params.ended_at) λ season.
        >>=-Hoare (λ _. IsSoundIn season) (entry-Hoare _ season _)
          λ entry1.
            >>=-Hoare (λ _. IsSoundIn season) (entry-Hoare _ season _)
              λ entry2.
                >>=-Hoare (λ new1 t. IsLimited new1 × IsSoundIn season t)
                  (updated-Hoare (IsSoundIn season) _ _ _)
                  λ new1.
                    >>=-Hoare (λ new2 t. IsLimited new2 × (IsLimited new1 × IsSoundIn season t))
                      (updated-Hoare (λ t. IsLimited new1 × IsSoundIn season t) _ _ _)
                      λ new2. pure-Hoare _ λ t h. ((h.1.0, h.0), h.1.1)

  -- After the times are read, the writes.
  stored-Hoare :
      (json : Json) (params : FinalizeParams) (scores : F × F) (x : Rated F) (now : Time)
      → Hoare (RatedIn x) (store_match json params x scores now) (λ _ t. IsSoundIn x.season t)
  stored-Hoare json params scores x now = given-Hoare (store_match-Hoare json params x scores now)

  finalize_tx-Hoare :
      (json : Json) (params : FinalizeParams) (scores : F × F)
      → Hoare IsSound (finalize_tx svc json params scores) (λ m t. IsSoundIn m.season t)
  unfolding finalize_tx
  finalize_tx-Hoare json params scores = >>=-Hoare RatedIn (rate_match-Hoare params scores) λ x.
      >>=-Hoare (λ _. RatedIn x) now_fn-Hoare
        λ now.
          >>=-Hoare (λ _. IsSoundIn x.season) (stored-Hoare json params scores x now)
            λ _. pure-Hoare _ λ t h. h

  running-IsSound : (m : FinalizedMatch F) (t : Tables F) → IsSoundIn m.season t → IsSound t
  running-IsSound m t ((line, _), h) = (line, h)

  scored-Keeps :
      (json : Json) (params : FinalizeParams) (scores : Answer StorageError (F × F))
      → Keeps IsSound (finalize_scored svc json params scores)
  unfolding finalize_scored
  scored-Keeps json params (failed reason) = record { kept = λ d w h. h }
  scored-Keeps json params (done scores) = record {
    kept = λ d w h.
        (transact-Keeps
            (weaken-Hoare (λ t p. p) running-IsSound (finalize_tx-Hoare json params scores))).kept
          d w h;
  }

  pub finalize_match-Keeps :
      (json : Json) (params : FinalizeParams) → Keeps IsSound (finalize_match svc json params)
  unfolding finalize_match
  finalize_match-Keeps json params = record {
    kept = λ d w h. (scored-Keeps json _ (accept_params params)).kept d w h;
  }
