-- ===== src/Storage/Ratings.antt =====
-- internal/storage/repositories.go: the ratings of the players, one for each season.
use terminal_wrestling_leagu.Common.{
  ℕ, Bool, ◌&&◌, Option, none, some, List, [], ◌∷◌, if◌then◌else◌, ltb,
}
use terminal_wrestling_leagu.Common.Float64.{Float64}
use terminal_wrestling_leagu.Common.Text.{Str, str_eq}
use terminal_wrestling_leagu.Ranking.{Rating, default_rating, apply_season_soft_reset}
use terminal_wrestling_leagu.Storage.{Time, Season, RatingEntry, query_failed, insert_failed}
use terminal_wrestling_leagu.Storage.Tx.{Tx, Call, pure, query, exec, ◌>>=◌, transact, on_pool}
use terminal_wrestling_leagu.Storage.Seasons.{ensure_active_season_tx}

-- The number of the season that a rating is joined_number with.
unfoldable pub season_number : Str → List Season → Option ℕ
season_number id [] = none
season_number id (s ∷ ss) =
    let rest = season_number id ss in if str_eq s.id id then some s.number else rest

module _ {F : Type 0} where
  unfoldable pub is_entry : Str → Str → RatingEntry F → Bool
  is_entry player season e = str_eq e.player_id player && str_eq e.season_id season

  -- `SELECT ... FROM player_ratings WHERE player_id = $1 AND season_id = $2`.
  unfoldable pub rating_of : Str → Str → List (RatingEntry F) → Option (RatingEntry F)
  rating_of player season [] = none
  rating_of player season (e ∷ es) =
      let rest = rating_of player season es in if is_entry player season e then some e else rest

  -- `INSERT ... ON CONFLICT (player_id, season_id) DO UPDATE SET ...`, which sets all the rest.
  unfoldable pub upsert_entry : RatingEntry F → List (RatingEntry F) → List (RatingEntry F)
  upsert_entry entry [] = entry ∷ []
  upsert_entry entry (e ∷ es) =
      let rest = upsert_entry entry es in
      if is_entry entry.player_id entry.season_id e then entry ∷ es else e ∷ rest

  unfoldable pub later : ℕ × RatingEntry F → Option (ℕ × RatingEntry F) → Option (ℕ × RatingEntry F)
  later x none = some x
  later x (some y) = if ltb y.0 x.0 then some x else some y

  -- A row of the join counts if it is of the player and of an earlier season.
  unfoldable pub joined_number : Str → ℕ → RatingEntry F → Option ℕ → Option (ℕ × RatingEntry F)
  joined_number player number e none = none
  joined_number player number e (some k) =
      if str_eq e.player_id player && ltb k number then some (k, e) else none

  unfoldable pub pick_later :
      Option (ℕ × RatingEntry F) → Option (ℕ × RatingEntry F) → Option (ℕ × RatingEntry F)
  pick_later none best = best
  pick_later (some x) best = later x best

  -- `SELECT ... JOIN seasons ... WHERE s.number < $2 ORDER BY s.number DESC LIMIT 1`.
  unfoldable pub latest_before :
      Str → ℕ → List Season → List (RatingEntry F) → Option (ℕ × RatingEntry F)
  latest_before player number seasons [] = none
  latest_before player number seasons (e ∷ es) =
      pick_later (joined_number player number e (season_number e.season_id seasons))
        (latest_before player number seasons es)

  unfoldable pub upsert_rating_tx : RatingEntry F → Tx F Unit
  upsert_rating_tx entry =
      exec insert_failed (λ t. some (record t { ratings = upsert_entry entry t.ratings }))

  -- `Upsert`.
  unfoldable pub upsert : RatingEntry F → Call F Unit
  upsert entry = on_pool (upsert_rating_tx entry)

module _ {F : Type 0} ⦃fl : Float64 F⦄ where
  -- What a player starts a season with.
  unfoldable pub base_rating : Option (ℕ × RatingEntry F) → Rating F
  base_rating none = default_rating
  base_rating (some (_, prev)) = apply_season_soft_reset prev.rating

  unfoldable pub new_entry : Str → Season → Time → Option (ℕ × RatingEntry F) → RatingEntry F
  new_entry player season now prev = record {
    player_id = player;
    season_id = season.id;
    rating = base_rating prev;
    last_match_at = none;
    updated_at = now;
  }

  unfoldable pub create_rating_tx : Str → Season → Time → Tx F (RatingEntry F)
  create_rating_tx player season now =
      query query_failed (λ t. latest_before player season.number t.seasons t.ratings) >>= λ prev.
      upsert_rating_tx (new_entry player season now prev) >>= λ _.
      pure (new_entry player season now prev)

  unfoldable pub found_rating : Str → Season → Time → Option (RatingEntry F) → Tx F (RatingEntry F)
  found_rating player season now none = create_rating_tx player season now
  found_rating player season now (some entry) = pure entry

  unfoldable pub get_or_create_rating_tx : Str → Season → Time → Tx F (RatingEntry F)
  get_or_create_rating_tx player season now =
      query query_failed (λ t. rating_of player season.id t.ratings)
      >>= found_rating player season now

  unfoldable pub get_or_create_for_active_season : Str → Time → Call F (RatingEntry F)
  get_or_create_for_active_season player now =
      transact (ensure_active_season_tx now >>= λ season. get_or_create_rating_tx player season now)
