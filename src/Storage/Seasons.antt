-- ===== src/Storage/Seasons.antt =====
-- internal/storage/repositories.go: the seasons.
use terminal_wrestling_leagu.Common.{
  ℕ, ◌+◌, ◌*◌, Bool, true, false, ◌||◌, ◌&&◌, Option, none, some, List, [], ◌∷◌, if◌then◌else◌, ltb,
  leb, ◌==◌, map,
}
use terminal_wrestling_leagu.Common.Text.{Str, str_eq}
use terminal_wrestling_leagu.Storage.{
  Time, Season, season_status_active, season_status_closed, Tables, err_not_found, query_failed,
  update_failed, insert_failed,
}
use terminal_wrestling_leagu.Storage.Tx.{
  Tx, unless, Call, pure, raise, query, exec, fresh_id, ◌>>=◌, transact, on_pool,
}

-- Thirty days.
abbrev pub season_duration : Time
season_duration = 30 * 24 * 3600000000000

unfoldable pub is_active_season : Season → Bool
is_active_season s = elim s.status [ season_status_active ↦ true | season_status_closed ↦ false ]

unfoldable pub higher : Season → Option Season → Option Season
higher s none = some s
higher s (some t) = if ltb t.number s.number then some s else some t

-- `SELECT ... WHERE status = 'active' ORDER BY number DESC LIMIT 1`.
unfoldable pub active_season : List Season → Option Season
active_season [] = none
active_season (s ∷ ss) =
    let rest = active_season ss in if is_active_season s then higher s rest else rest

-- `UPDATE seasons SET status = 'closed', updated_at = $2 WHERE id = $1`.
unfoldable pub close_season : Str → Time → Season → Season
close_season id now s =
    if str_eq s.id id then record s { status = season_status_closed; updated_at = now } else s

-- A row that `id`, `number` or `seasons_single_active_idx` keeps the season `s` from joining.
unfoldable pub clashes : Season → List Season → Bool
clashes s [] = false
clashes s (t ∷ ts) =
    str_eq s.id t.id
    || s.number == t.number
    || (is_active_season s && is_active_season t)
    || clashes s ts

module _ {F : Type 0} where
  unfoldable pub put_season : Season → Tables F → Option (Tables F)
  put_season s t =
      unless (clashes s t.seasons || leb s.ends_at s.starts_at)
        (record t { seasons = s ∷ t.seasons })

  unfoldable pub create_next_season_tx : ℕ → Time → Time → Time → Tx F Season
  create_next_season_tx number starts_at duration now = fresh_id >>= λ id.
      let s : Season = record {
        id = id;
        number = number;
        starts_at = starts_at;
        ends_at = starts_at + duration;
        status = season_status_active;
        created_at = now;
        updated_at = now;
      } in
      exec insert_failed (put_season s) >>= λ _. pure s

  -- The season that is over is closed, and the next one begins where it ended.
  unfoldable pub close_and_create : Time → Season → Tx F Season
  close_and_create now season =
      exec update_failed
        (λ t. some (record t { seasons = map (close_season season.id now) t.seasons }))
      >>= λ _. create_next_season_tx (season.number + 1) season.ends_at season_duration now

  unfoldable pub ensure_found : Time → Option Season → Tx F Season
  ensure_found now none = create_next_season_tx 1 now season_duration now
  ensure_found now (some season) =
      if ltb now season.ends_at then pure season else close_and_create now season

  unfoldable pub ensure_active_season_tx : Time → Tx F Season
  ensure_active_season_tx now =
      query query_failed (λ t. active_season t.seasons) >>= ensure_found now

  -- `EnsureActive`, and `CloseExpiredAndCreateNext`, which calls it.
  unfoldable pub ensure_active : Time → Call F Season
  ensure_active now = transact (ensure_active_season_tx now)

  unfoldable pub found_season : Option Season → Tx F Season
  found_season none = raise err_not_found
  found_season (some s) = pure s

  unfoldable pub get_active : Call F Season
  get_active = on_pool (query query_failed (λ t. active_season t.seasons) >>= found_season)
