-- ===== src/Storage/Sound.antt =====
-- internal/storage/repositories.go with internal/ranking: the tables of seasons and ratings stay
-- sound whatever the methods do and wherever they fail.
use terminal_wrestling_leagu.Common.{ℕ, Option, none, some, List, [], ◌∷◌, if_keeps, All}
use terminal_wrestling_leagu.Common.Float64.{Float64, IsRounded}
use terminal_wrestling_leagu.Common.Text.{Str}
use terminal_wrestling_leagu.Ranking.Limits.{
  IsLimited, default_rating-IsLimited, apply_season_soft_reset-IsLimited,
}
use terminal_wrestling_leagu.Storage.{
  Time, Season, RatingEntry, PlayerProfile, TutorialRunRow, Tables, query_failed, insert_failed,
}
use terminal_wrestling_leagu.Storage.Tx.Hoare.{
  Hoare, pure-Hoare, query-Hoare, exec-Hoare, >>=-Hoare, weaken-Hoare,
}
use terminal_wrestling_leagu.Storage.Seasons.{ensure_active_season_tx}
use terminal_wrestling_leagu.Storage.Timeline.{
  IsTimeline, IsRunning, Rest, ensure_active_season_tx-Hoare,
}
use terminal_wrestling_leagu.Storage.Counted.{CountsRuns}
use terminal_wrestling_leagu.Storage.Ratings.{
  is_entry, rating_of, upsert_entry, base_rating, new_entry, create_rating_tx, found_rating,
  get_or_create_rating_tx, upsert_rating_tx,
}

abbrev pub LimitedRatings : {F : Type 0} ⦃fl : Float64 F⦄ → List (RatingEntry F) → Type 0
LimitedRatings ⦃fl⦄ = All (λ e. IsLimited e.rating)

-- Every rating is within its limits, and the profiles count the runs of the tutorial.
abbrev pub HasSoundRows :
    {F : Type 0} ⦃fl : Float64 F⦄
    → List (RatingEntry F)
    → List PlayerProfile
    → List TutorialRunRow
    → Type 0
HasSoundRows es ps rs = LimitedRatings es × CountsRuns ps rs

-- The seasons follow one another, and the rows of the other tables are sound.
abbrev pub IsSound : {F : Type 0} ⦃fl : Float64 F⦄ → Tables F → Type 0
IsSound t = IsTimeline t.seasons × Rest HasSoundRows t

-- Sound tables, with `s` the season that runs.
abbrev pub IsSoundIn : {F : Type 0} ⦃fl : Float64 F⦄ → Season → Tables F → Type 0
IsSoundIn s t = IsRunning s t.seasons × Rest HasSoundRows t

-- An entry that comes back is limited, and the tables are as sound as before.
abbrev pub EntryIn : {F : Type 0} ⦃fl : Float64 F⦄ → Season → RatingEntry F → Tables F → Type 0
EntryIn s e t = IsLimited e.rating × IsSoundIn s t

-- What a query finds is limited too.
abbrev FoundLimited : {F : Type 0} ⦃fl : Float64 F⦄ → Option (RatingEntry F) → Type 0
FoundLimited none = Unit
FoundLimited (some e) = IsLimited e.rating

module _ {F : Type 0} ⦃fl : Float64 F⦄ where
  pub upsert_entry-LimitedRatings :
      (entry : RatingEntry F) (es : List (RatingEntry F))
      → IsLimited entry.rating
      → LimitedRatings es
      → LimitedRatings (upsert_entry entry es)
  unfolding upsert_entry
  upsert_entry-LimitedRatings entry [] h hs = (h, tt)
  upsert_entry-LimitedRatings entry (e ∷ es) h (he, hs) =
      if_keeps {A = List (RatingEntry F)} LimitedRatings
        (is_entry entry.player_id entry.season_id e) _ _ (h, hs)
        (he, upsert_entry-LimitedRatings entry es h hs)

  rating_of-FoundLimited :
      (player season : Str) (es : List (RatingEntry F))
      → LimitedRatings es
      → FoundLimited (rating_of player season es)
  unfolding rating_of
  rating_of-FoundLimited player season [] hs = tt
  rating_of-FoundLimited player season (e ∷ es) (he, hs) =
      if_keeps {A = Option (RatingEntry F)} FoundLimited (is_entry player season e) _ _ he
        (rating_of-FoundLimited player season es hs)

  pub upsert_rating_tx-Hoare :
      (s : Season) (entry : RatingEntry F)
      → IsLimited entry.rating
      → Hoare {F = F} (IsSoundIn s) (upsert_rating_tx entry) (λ _. IsSoundIn s)
  unfolding upsert_rating_tx
  upsert_rating_tx-Hoare s entry h =
      exec-Hoare insert_failed _
        λ t (line, (hs, counts)). (line, (upsert_entry-LimitedRatings entry t.ratings h hs, counts))

module _ {F : Type 0} ⦃fl : Float64 F⦄ (rounded : IsRounded F) where
  base_rating-IsLimited : (prev : Option (ℕ × RatingEntry F)) → IsLimited (base_rating prev)
  unfolding base_rating
  base_rating-IsLimited none = default_rating-IsLimited rounded
  base_rating-IsLimited (some (k, prev)) = apply_season_soft_reset-IsLimited rounded prev.rating

  create_rating_tx-Hoare :
      (player : Str) (season : Season) (now : Time)
      → Hoare {F = F} (IsSoundIn season) (create_rating_tx player season now) (EntryIn season)
  unfolding create_rating_tx new_entry
  create_rating_tx-Hoare player season now =
      >>=-Hoare (λ _. IsSoundIn season) (query-Hoare query_failed _ λ t h. h)
        λ prev.
          >>=-Hoare (λ _. IsSoundIn season)
            (upsert_rating_tx-Hoare season _ (base_rating-IsLimited prev))
            λ _. pure-Hoare _ λ t h. (base_rating-IsLimited prev, h)

  found_rating-Hoare :
      (player : Str) (season : Season) (now : Time) (found : Option (RatingEntry F))
      → Hoare
          (λ t. FoundLimited found × IsSoundIn season t)
          (found_rating player season now found)
          (EntryIn season)
  unfolding found_rating
  found_rating-Hoare player season now none =
      weaken-Hoare (λ t h. h.1) (λ a t h. h) (create_rating_tx-Hoare player season now)
  found_rating-Hoare player season now (some entry) = pure-Hoare entry λ t h. h

  pub get_or_create_rating_tx-Hoare :
      (player : Str) (season : Season) (now : Time)
      → Hoare {F = F}
          (IsSoundIn season)
          (get_or_create_rating_tx player season now)
          (EntryIn season)
  unfolding get_or_create_rating_tx
  get_or_create_rating_tx-Hoare player season now =
      >>=-Hoare (λ found t. FoundLimited found × IsSoundIn season t)
        (query-Hoare query_failed _ λ t (line, (hs, counts)).
          (rating_of-FoundLimited player season.id t.ratings hs, (line, (hs, counts))))
        (found_rating-Hoare player season now)

module _ {F : Type 0} ⦃fl : Float64 F⦄ where
  -- The seasons and ratings of sound tables are all that the query for the season touches.
  pub ensure_season-Hoare :
      (now : Time) → Hoare {F = F} IsSound (ensure_active_season_tx now) IsSoundIn
  ensure_season-Hoare now = ensure_active_season_tx-Hoare HasSoundRows now
