-- ===== src/Storage/Reach.antt =====
-- internal/storage: whatever methods are called, in whatever order and by whatever sessions, and
-- wherever the driver fails.
use terminal_wrestling_leagu.Common.{ℕ, refl, []}
use terminal_wrestling_leagu.Common.Float64.{Float64, IsRounded}
use terminal_wrestling_leagu.Common.Text.{Str}
use terminal_wrestling_leagu.Ranking.{Glicko2Config, Service}
use terminal_wrestling_leagu.Ranking.Limits.{IsLimited}
use terminal_wrestling_leagu.Ranking.Solver.{new_glicko2_service}
use terminal_wrestling_leagu.Storage.{Time, MatchRow, TutorialRunRow, RatingEntry, Tables}
use terminal_wrestling_leagu.Storage.Tx.{Driver, Work}
use terminal_wrestling_leagu.Storage.Players.{create_player}
use terminal_wrestling_leagu.Storage.Seasons.{ensure_active}
use terminal_wrestling_leagu.Storage.Ratings.{upsert, get_or_create_for_active_season}
use terminal_wrestling_leagu.Storage.Replays.{Json}
use terminal_wrestling_leagu.Storage.Matches.{FinalizeParams, finalize_match, create_match}
use terminal_wrestling_leagu.Storage.Profiles.{
  get_or_create_profile, mark_tutorial_completed, create_tutorial_run,
}
use terminal_wrestling_leagu.Storage.Counted.{runs_counted, count_runs}
use terminal_wrestling_leagu.Storage.Sound.{IsSound}
use terminal_wrestling_leagu.Storage.Methods.{
  create_player-Keeps, ensure_active-Keeps, create_match-Keeps, get_or_create_profile-Keeps,
  mark_tutorial_completed-Keeps, create_tutorial_run-Keeps, get_or_create_rating-Keeps,
  upsert-Keeps, service-IsLimited,
}
use terminal_wrestling_leagu.Storage.Kept.{finalize_match-Keeps}

abbrev pub no_tables : {F : Type 0} → Tables F
no_tables = record {
  players = [];
  seasons = [];
  matches = [];
  ratings = [];
  results = [];
  replays = [];
  replay_turns = [];
  profiles = [];
  tutorial_runs = [];
}

-- The tables after some calls, each with its own driver. `Upsert` writes the entry as it is given;
-- `Upserts` says which entries its callers give.
pub data Reach {F : Type 0} ⦃fl : Float64 F⦄ (svc : Service F) (json : Json)
    (Upserts : RatingEntry F → Type 0) : Work F → Type 0 where
  migrated : (calls : ℕ) → Reach svc json Upserts (record { tables = no_tables; calls = calls })
  by_create_player :
      (handle : Str) (d : Driver) (w : Work F)
      → Reach svc json Upserts w
      → Reach svc json Upserts ((create_player handle d w).1)
  by_ensure_active :
      (now : Time) (d : Driver) (w : Work F)
      → Reach svc json Upserts w
      → Reach svc json Upserts ((ensure_active now d w).1)
  by_get_or_create_rating :
      (player : Str) (now : Time) (d : Driver) (w : Work F)
      → Reach svc json Upserts w
      → Reach svc json Upserts ((get_or_create_for_active_season player now d w).1)
  by_upsert :
      (entry : RatingEntry F) (d : Driver) (w : Work F)
      → Upserts entry
      → Reach svc json Upserts w
      → Reach svc json Upserts ((upsert entry d w).1)
  by_create_match :
      (m : MatchRow) (d : Driver) (w : Work F)
      → Reach svc json Upserts w
      → Reach svc json Upserts ((create_match m d w).1)
  by_finalize_match :
      (params : FinalizeParams) (d : Driver) (w : Work F)
      → Reach svc json Upserts w
      → Reach svc json Upserts ((finalize_match svc json params d w).1)
  by_get_or_create_profile :
      (player : Str) (d : Driver) (w : Work F)
      → Reach svc json Upserts w
      → Reach svc json Upserts ((get_or_create_profile player d w).1)
  by_mark_tutorial_completed :
      (player : Str) (now : Time) (d : Driver) (w : Work F)
      → Reach svc json Upserts w
      → Reach svc json Upserts ((mark_tutorial_completed player now d w).1)
  by_create_tutorial_run :
      (run : TutorialRunRow) (d : Driver) (w : Work F)
      → Reach svc json Upserts w
      → Reach svc json Upserts ((create_tutorial_run run d w).1)

module _ {F : Type 0} ⦃fl : Float64 F⦄ where
  -- Whatever methods have run since the tables were made, in whatever order and wherever the driver
  -- failed, with any configuration of the ratings, if every call of `Upsert` brought a rating within
  -- its limits and rounding keeps the order of the float64 literals: the seasons are numbered from 1 on, each starts
  -- where the last one ends and only the newest one is active; every rating is within its limits;
  -- and every profile counts the runs of the tutorial of its player.
  pub Reach-IsSound :
      (rounded : IsRounded F) (Upserts : RatingEntry F → Type 0)
      → ((entry : RatingEntry F) → Upserts entry → IsLimited entry.rating)
      → (fuel : ℕ) (cfg : Glicko2Config F) (json : Json) (w : Work F)
      → Reach (new_glicko2_service fuel cfg) json Upserts w
      → IsSound w.tables
  unfolding runs_counted count_runs
  Reach-IsSound rounded Upserts limited fuel cfg json w (migrated calls) =
      (tt, (tt, λ player. refl))
  Reach-IsSound rounded Upserts limited fuel cfg json w (by_create_player handle d w' r) =
      (create_player-Keeps handle).kept d w'
        (Reach-IsSound rounded Upserts limited fuel cfg json w' r)
  Reach-IsSound rounded Upserts limited fuel cfg json w (by_ensure_active now d w' r) =
      (ensure_active-Keeps now).kept d w' (Reach-IsSound rounded Upserts limited fuel cfg json w' r)
  Reach-IsSound rounded Upserts limited fuel cfg json w
        (by_get_or_create_rating player now d w' r) =
      (get_or_create_rating-Keeps rounded player now).kept d w'
        (Reach-IsSound rounded Upserts limited fuel cfg json w' r)
  Reach-IsSound rounded Upserts limited fuel cfg json w (by_upsert entry d w' h r) =
      (upsert-Keeps entry (limited entry h)).kept d w'
        (Reach-IsSound rounded Upserts limited fuel cfg json w' r)
  Reach-IsSound rounded Upserts limited fuel cfg json w (by_create_match m d w' r) =
      (create_match-Keeps m).kept d w' (Reach-IsSound rounded Upserts limited fuel cfg json w' r)
  Reach-IsSound rounded Upserts limited fuel cfg json w (by_finalize_match params d w' r) =
      (finalize_match-Keeps rounded (new_glicko2_service fuel cfg)
          (service-IsLimited rounded fuel cfg) json params).kept
        d w' (Reach-IsSound rounded Upserts limited fuel cfg json w' r)
  Reach-IsSound rounded Upserts limited fuel cfg json w (by_get_or_create_profile player d w' r) =
      (get_or_create_profile-Keeps player).kept d w'
        (Reach-IsSound rounded Upserts limited fuel cfg json w' r)
  Reach-IsSound rounded Upserts limited fuel cfg json w
        (by_mark_tutorial_completed player now d w' r) =
      (mark_tutorial_completed-Keeps player now).kept d w'
        (Reach-IsSound rounded Upserts limited fuel cfg json w' r)
  Reach-IsSound rounded Upserts limited fuel cfg json w (by_create_tutorial_run run d w' r) =
      (create_tutorial_run-Keeps run).kept d w'
        (Reach-IsSound rounded Upserts limited fuel cfg json w' r)
