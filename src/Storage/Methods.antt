-- ===== src/Storage/Methods.antt =====
-- internal/storage: each method keeps the tables sound.
use terminal_wrestling_leagu.Common.{ℕ, ◌≡◌, refl, Option, none, some, arith}
use terminal_wrestling_leagu.Common.Float64.{Float64, IsRounded}
use terminal_wrestling_leagu.Common.Text.{Str}
use terminal_wrestling_leagu.Ranking.{Glicko2Config, completed_config}
use terminal_wrestling_leagu.Ranking.Limits.{IsLimited, update_rating-IsLimited}
use terminal_wrestling_leagu.Ranking.Solver.{new_glicko2_service}
use terminal_wrestling_leagu.Storage.{
  Time, Season, MatchRow, RatingEntry, PlayerProfile, TutorialRunRow, Tables, insert_failed,
  unique_violation, query_failed,
}
use terminal_wrestling_leagu.Storage.Tx.{pure, ◌>>=◌, on_pool}
use terminal_wrestling_leagu.Storage.Tx.Hoare.{
  Hoare, pure-Hoare, raise-Hoare, exec-Hoare, exec_or-Hoare, exec-pure-Hoare, query-Hoare,
  now_fn-Hoare, fresh_id-Hoare, >>=-Hoare, weaken-Hoare, unless-Writes,
}
use terminal_wrestling_leagu.Storage.Tx.Keeps.{
  Keeps, transact-Keeps, on_pool-Keeps, guarded-Keeps, with_driver-Keeps, and_then-Keeps,
}
use terminal_wrestling_leagu.Storage.Players.{create_player, put_player}
use terminal_wrestling_leagu.Storage.Seasons.{ensure_active}
use terminal_wrestling_leagu.Storage.Timeline.{IsTimeline}
use terminal_wrestling_leagu.Storage.Ratings.{
  upsert, upsert_rating_tx, get_or_create_for_active_season,
}
use terminal_wrestling_leagu.Storage.Matches.{
  create_match, completed_row, insert_match_tx, put_match,
}
use terminal_wrestling_leagu.Storage.Profiles.{
  found_profile, get_profile, get_or_create_profile, mark_tutorial_completed, create_tutorial_run,
  put_profile, write_profile, given_time, tutorial_run_tx, blank_profile, completed_at,
  completed_run,
}
use terminal_wrestling_leagu.Storage.Counted.{put_profile-IsCounted, Adds, tutorial_run_tx-Hoare}
use terminal_wrestling_leagu.Storage.Sound.{
  IsSound, IsSoundIn, LimitedRatings, ensure_season-Hoare, get_or_create_rating_tx-Hoare,
  upsert_entry-LimitedRatings,
}
use terminal_wrestling_leagu.Storage.Kept.{IsLimitedService}

same-Adds : Adds 0 (λ p. p)
same-Adds p = (refl, omega arith)

completed-Adds : (now : Time) → Adds 0 (completed_at now)
unfolding completed_at
completed-Adds now p = (refl, omega arith)

blank_zero :
    (player : Str) (now : Time)
    → ((blank_profile player now).tutorial_runs ≡ 0)
      × ((completed_at now (blank_profile player now)).tutorial_runs ≡ 0)
unfolding blank_profile completed_at
blank_zero player now = (refl, refl)

module _ {F : Type 0} ⦃fl : Float64 F⦄ where
  pub create_player-Keeps : (handle : Str) → Keeps {F = F} IsSound (create_player handle)
  unfolding create_player put_player
  create_player-Keeps handle = on_pool-Keeps (
      >>=-Hoare (λ _. IsSound) now_fn-Hoare
        λ now.
          >>=-Hoare (λ _. IsSound) fresh_id-Hoare
            λ id.
              >>=-Hoare (λ _. IsSound)
                (exec_or-Hoare unique_violation insert_failed _ λ t h. unless-Writes IsSound _ _ h)
                λ _. pure-Hoare _ λ t h. h)

  running-IsSound : (s : Season) (t : Tables F) → IsSoundIn s t → IsSound t
  running-IsSound s t ((line, _), h) = (line, h)

  pub ensure_active-Keeps : (now : Time) → Keeps {F = F} IsSound (ensure_active now)
  unfolding ensure_active
  ensure_active-Keeps now =
      transact-Keeps (weaken-Hoare (λ t h. h) running-IsSound (ensure_season-Hoare now))

  insert_match-Keeps :
      (m : MatchRow) → Keeps {F = F} IsSound (on_pool (insert_match_tx m >>= λ _. pure m))
  unfolding insert_match_tx put_match
  insert_match-Keeps m =
      on_pool-Keeps (exec-pure-Hoare m insert_failed _ λ t h. unless-Writes IsSound _ _ h)

  pub create_match-Keeps : (m : MatchRow) → Keeps {F = F} IsSound (create_match m)
  unfolding create_match
  create_match-Keeps m =
      guarded-Keeps _ _
        (guarded-Keeps _ _ (with_driver-Keeps λ d w. insert_match-Keeps (completed_row d w m)))

  found_profile-Hoare :
      (o : Option PlayerProfile) → Hoare {F = F} IsSound (found_profile o) (λ _. IsSound)
  unfolding found_profile
  found_profile-Hoare none = raise-Hoare _
  found_profile-Hoare (some p) = pure-Hoare p λ t h. h

  get_profile-Keeps : (player : Str) → Keeps {F = F} IsSound (get_profile player)
  unfolding get_profile
  get_profile-Keeps player =
      on_pool-Keeps
        (>>=-Hoare (λ _. IsSound) (query-Hoare query_failed _ λ t h. h) found_profile-Hoare)

  write_profile-Keeps :
      (player : Str) (new : PlayerProfile) (change : PlayerProfile → PlayerProfile)
      → Adds 0 change
      → new.tutorial_runs ≡ 0
      → Keeps {F = F} IsSound (write_profile player new change)
  unfolding write_profile put_profile
  write_profile-Keeps player new change h e =
      and_then-Keeps
        (on_pool-Keeps (
          exec-Hoare insert_failed _ λ t (line, (limited, counts)).
            (line, (limited, put_profile-IsCounted new change h e t counts))))
        λ _. get_profile-Keeps player

  pub get_or_create_profile-Keeps :
      (player : Str) → Keeps {F = F} IsSound (get_or_create_profile player)
  unfolding get_or_create_profile
  get_or_create_profile-Keeps player = guarded-Keeps _ _ (
      with_driver-Keeps
        λ d w. write_profile-Keeps player _ _ same-Adds ((blank_zero player (d.now w.calls)).0))

  pub mark_tutorial_completed-Keeps :
      (player : Str) (now : Time) → Keeps {F = F} IsSound (mark_tutorial_completed player now)
  unfolding mark_tutorial_completed
  mark_tutorial_completed-Keeps player now = guarded-Keeps _ _ (
      with_driver-Keeps λ d w.
        write_profile-Keeps player _ _ (completed-Adds (given_time now d w))
          ((blank_zero player (given_time now d w)).1))

  run_tx-Hoare : (run : TutorialRunRow) → Hoare {F = F} IsSound (tutorial_run_tx run) (λ _. IsSound)
  run_tx-Hoare run =
      weaken-Hoare (λ t (line, (limited, counts)). ((line, limited), counts))
        (λ _ t ((line, limited), counts). (line, (limited, counts)))
        (tutorial_run_tx-Hoare (λ ss es. IsTimeline ss × LimitedRatings es) run)

  pub create_tutorial_run-Keeps :
      (run : TutorialRunRow) → Keeps {F = F} IsSound (create_tutorial_run run)
  unfolding create_tutorial_run
  create_tutorial_run-Keeps run = guarded-Keeps _ _ (
      guarded-Keeps _ _ (
        guarded-Keeps _ _
          (with_driver-Keeps λ d w. transact-Keeps (run_tx-Hoare (completed_run d w run)))))

  pub get_or_create_rating-Keeps :
      (rounded : IsRounded F) (player : Str) (now : Time)
      → Keeps {F = F} IsSound (get_or_create_for_active_season player now)
  unfolding get_or_create_for_active_season
  get_or_create_rating-Keeps rounded player now = transact-Keeps (
      >>=-Hoare IsSoundIn (ensure_season-Hoare now) λ season.
        weaken-Hoare (λ t h. h) (λ e t h. running-IsSound season t h.1)
          (get_or_create_rating_tx-Hoare rounded player season now))

  pub upsert-Keeps :
      (entry : RatingEntry F) → IsLimited entry.rating → Keeps {F = F} IsSound (upsert entry)
  unfolding upsert upsert_rating_tx
  upsert-Keeps entry h = on_pool-Keeps (
      exec-Hoare insert_failed _ λ t (line, (limited, counts)).
        (line, (upsert_entry-LimitedRatings entry t.ratings h limited, counts)))

  pub service-IsLimited :
      (rounded : IsRounded F) (fuel : ℕ) (cfg : Glicko2Config F)
      → IsLimitedService (new_glicko2_service fuel cfg)
  service-IsLimited rounded fuel cfg x opps =
      update_rating-IsLimited rounded fuel (completed_config cfg) x opps
