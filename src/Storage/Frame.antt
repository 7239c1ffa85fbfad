-- ===== src/Storage/Frame.antt =====
-- internal/storage/repositories.go: what is read and written before a match is stored leaves the
-- tables of matches, results and replays alone.
use terminal_wrestling_leagu.Common.{ℕ, Option, none, some, List, if_keeps, ltb}
use terminal_wrestling_leagu.Common.Answer.{Answer, failed, done, Yields}
use terminal_wrestling_leagu.Common.Float64.{Float64}
use terminal_wrestling_leagu.Common.Text.{Str}
use terminal_wrestling_leagu.Ranking.{Service}
use terminal_wrestling_leagu.Storage.{
  Time, Season, ReplayRow, ReplayTurnRow, RatingEntry, Tables, query_failed, insert_failed,
  update_failed,
}
use terminal_wrestling_leagu.Storage.Tx.{Tx}
use terminal_wrestling_leagu.Storage.Tx.Hoare.{
  Hoare, pure-Hoare, exec-Hoare, exec-pure-Hoare, query-Hoare, fresh_id-Hoare, known-Hoare,
  unless-Writes, >>=-Hoare,
}
use terminal_wrestling_leagu.Storage.Seasons.{
  put_season, create_next_season_tx, close_and_create, ensure_found, ensure_active_season_tx,
}
use terminal_wrestling_leagu.Storage.Ratings.{
  upsert_rating_tx, create_rating_tx, found_rating, get_or_create_rating_tx,
}
use terminal_wrestling_leagu.Storage.Matches.{FinalizeParams, rate_match}

-- A property of the tables of replays.
abbrev pub OfReplays :
    {F : Type 0} → (List ReplayRow → List ReplayTurnRow → Type 0) → Tables F → Type 0
OfReplays R t = R t.replays t.replay_turns

-- A result that may be an error, of which nothing is asked.
pub any-Yields : {E A : Type 0} {P : Type 0} (a : Answer E A) → P → Yields (λ _. P) a
any-Yields (failed reason) p = tt
any-Yields (done a) p = p

-- A transaction that keeps what holds of the replays.
abbrev pub Frames :
    {F A : Type 0} → (List ReplayRow → List ReplayTurnRow → Type 0) → Tx F A → Type 0
Frames R m = Hoare (OfReplays R) m (λ _. OfReplays R)

module _ {F : Type 0} (R : List ReplayRow → List ReplayTurnRow → Type 0) where
  create_next-Frames :
      (number : ℕ) (starts_at duration now : Time)
      → Frames {F = F} R (create_next_season_tx number starts_at duration now)
  unfolding create_next_season_tx put_season
  create_next-Frames number starts_at duration now =
      >>=-Hoare (λ _. OfReplays R) fresh_id-Hoare
        λ id. exec-pure-Hoare _ insert_failed _ λ t h. unless-Writes (OfReplays R) _ _ h

  ensure_found-Frames : (now : Time) (o : Option Season) → Frames {F = F} R (ensure_found now o)
  unfolding ensure_found close_and_create
  ensure_found-Frames now none = create_next-Frames _ _ _ _
  ensure_found-Frames now (some s) =
      if_keeps (Frames {F = F} R) (ltb now s.ends_at) _ _ (pure-Hoare s λ t h. h) (
        >>=-Hoare (λ _. OfReplays R) (exec-Hoare update_failed _ λ t h. h)
          λ _. create_next-Frames _ _ _ _)

  ensure_active-Frames : (now : Time) → Frames {F = F} R (ensure_active_season_tx now)
  unfolding ensure_active_season_tx
  ensure_active-Frames now =
      >>=-Hoare (λ _. OfReplays R) (query-Hoare query_failed _ λ t h. h) (ensure_found-Frames now)

  pub upsert_rating-Frames : (entry : RatingEntry F) → Frames R (upsert_rating_tx entry)
  unfolding upsert_rating_tx
  upsert_rating-Frames entry = exec-Hoare insert_failed _ λ t h. h

module _ {F : Type 0} ⦃fl : Float64 F⦄ (R : List ReplayRow → List ReplayTurnRow → Type 0) where
  found_rating-Frames :
      (player : Str) (season : Season) (now : Time) (found : Option (RatingEntry F))
      → Frames R (found_rating player season now found)
  unfolding found_rating create_rating_tx
  found_rating-Frames player season now none =
      >>=-Hoare (λ _. OfReplays R) (query-Hoare query_failed _ λ t h. h)
        λ prev. >>=-Hoare (λ _. OfReplays R) (upsert_rating-Frames R _) λ _. pure-Hoare _ λ t h. h
  found_rating-Frames player season now (some entry) = pure-Hoare entry λ t h. h

  get_or_create-Frames :
      (player : Str) (season : Season) (now : Time)
      → Frames {F = F} R (get_or_create_rating_tx player season now)
  unfolding get_or_create_rating_tx
  get_or_create-Frames player season now =
      >>=-Hoare (λ _. OfReplays R) (query-Hoare query_failed _ λ t h. h)
        (found_rating-Frames player season now)

  pub rate_match-Frames :
      (svc : Service F) (params : FinalizeParams) (scores : F × F)
      → Frames {F = F} R (rate_match svc params scores)
  unfolding rate_match
  rate_match-Frames svc params (score1, score2) =
      >>=-Hoare (λ _. OfReplays R) (ensure_active-Frames R params.ended_at)
        λ season.
          >>=-Hoare (λ _. OfReplays R) (get_or_create-Frames _ season _)
            λ entry1.
              >>=-Hoare (λ _. OfReplays R) (get_or_create-Frames _ season _)
                λ entry2.
                  >>=-Hoare (λ _. OfReplays R) (known-Hoare _ λ t h. any-Yields _ h)
                    λ new1.
                      >>=-Hoare (λ _. OfReplays R) (known-Hoare _ λ t h. any-Yields _ h)
                        λ new2. pure-Hoare _ λ t h. h
