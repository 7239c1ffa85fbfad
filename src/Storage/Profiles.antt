-- ===== src/Storage/Profiles.antt =====
-- internal/storage/repositories_m5.go: the profiles of the players and the runs of the tutorial.
-- `TutorialResult` has no values beyond its constants, so no result is refused.
use terminal_wrestling_leagu.Common.{
  ◌+◌, Bool, true, false, ◌||◌, Option, none, some, List, [], ◌∷◌, if◌then◌else◌, ltb, ◌==◌,
}
use terminal_wrestling_leagu.Common.Text.{Str, str_eq, is_empty}
use terminal_wrestling_leagu.Storage.{
  Time, PlayerProfile, TutorialRunRow, Tables, err_not_found, player_id_required, times_required,
  ended_early, query_failed, insert_failed,
}
use terminal_wrestling_leagu.Storage.Tx.{
  Tx, Call, Driver, Work, unless, pure, raise, query, exec, ◌>>=◌, transact, on_pool, and_then,
  guarded, with_driver,
}
use terminal_wrestling_leagu.Storage.Matches.{match_duration_ms}

unfoldable pub profile_of : Str → List PlayerProfile → Option PlayerProfile
profile_of player [] = none
profile_of player (p ∷ ps) =
    let rest = profile_of player ps in if str_eq p.player_id player then some p else rest

-- `INSERT ... ON CONFLICT (player_id) DO ...`: the row `new`, or the row that is there, changed.
unfoldable pub upsert_profile :
    PlayerProfile → (PlayerProfile → PlayerProfile) → List PlayerProfile → List PlayerProfile
upsert_profile new change [] = new ∷ []
upsert_profile new change (p ∷ ps) =
    let rest = upsert_profile new change ps in
    if str_eq p.player_id new.player_id then change p ∷ ps else p ∷ rest

unfoldable pub blank_profile : Str → Time → PlayerProfile
blank_profile player now = record {
  player_id = player;
  tutorial_completed = false;
  tutorial_completed_at = none;
  tutorial_runs = 0;
  created_at = now;
  updated_at = now;
}

unfoldable pub or_else : {A : Type 0} → Option A → Option A → Option A
or_else none b = b
or_else (some a) b = some a

unfoldable pub completed_at : Time → PlayerProfile → PlayerProfile
completed_at now p = record p {
  tutorial_completed = true;
  tutorial_completed_at = or_else p.tutorial_completed_at (some now);
  updated_at = now;
}

unfoldable pub one_more_run : Time → PlayerProfile → PlayerProfile
one_more_run now p = record p { tutorial_runs = p.tutorial_runs + 1; updated_at = now }

unfoldable pub has_run : Str → List TutorialRunRow → Bool
has_run id [] = false
has_run id (r ∷ rs) = str_eq r.id id || has_run id rs

module _ {F : Type 0} where
  unfoldable pub found_profile : Option PlayerProfile → Tx F PlayerProfile
  found_profile none = raise err_not_found
  found_profile (some p) = pure p

  unfoldable pub get_profile : Str → Call F PlayerProfile
  get_profile player =
      on_pool (query query_failed (λ t. profile_of player t.profiles) >>= found_profile)

  unfoldable pub put_profile :
      PlayerProfile → (PlayerProfile → PlayerProfile) → Tables F → Option (Tables F)
  put_profile new change t = some (record t { profiles = upsert_profile new change t.profiles })

  -- A profile is written and read back.
  unfoldable pub write_profile :
      Str → PlayerProfile → (PlayerProfile → PlayerProfile) → Call F PlayerProfile
  write_profile player new change =
      and_then (on_pool (exec insert_failed (put_profile new change))) (λ _. get_profile player)

  unfoldable pub get_or_create_profile : Str → Call F PlayerProfile
  get_or_create_profile player =
      guarded (is_empty player) player_id_required
        (with_driver λ d w. write_profile player (blank_profile player (d.now w.calls)) (λ p. p))

  -- The time of `now`, or the present if it is zero.
  abbrev pub given_time : Time → Driver → Work F → Time
  given_time now d w = if now == 0 then d.now w.calls else now

  unfoldable pub mark_tutorial_completed : Str → Time → Call F PlayerProfile
  mark_tutorial_completed player given = guarded (is_empty player) player_id_required (
      with_driver λ d w.
        let now = given_time given d w in
        write_profile player (completed_at now (blank_profile player now)) (completed_at now))

  unfoldable pub put_run : TutorialRunRow → Tables F → Option (Tables F)
  put_run run t =
      unless (has_run run.id t.tutorial_runs) (record t { tutorial_runs = run ∷ t.tutorial_runs })

  unfoldable pub tutorial_run_tx : TutorialRunRow → Tx F TutorialRunRow
  tutorial_run_tx run = exec insert_failed (put_run run) >>= λ _.
      exec insert_failed (
        put_profile (one_more_run run.created_at (blank_profile run.player_id run.created_at))
          (one_more_run run.created_at))
      >>= λ _. pure run

  -- The run with what the method fills in.
  unfoldable pub completed_run : Driver → Work F → TutorialRunRow → TutorialRunRow
  completed_run d w run = record run {
    id = if is_empty run.id then d.new_id w.calls else run.id;
    created_at = if run.created_at == 0 then d.now w.calls else run.created_at;
    duration_ms = match_duration_ms run.started_at run.ended_at;
  }

  unfoldable pub create_tutorial_run : TutorialRunRow → Call F TutorialRunRow
  create_tutorial_run run = guarded (is_empty run.player_id) player_id_required (
      guarded (run.started_at == 0 || run.ended_at == 0) times_required (
        guarded (ltb run.ended_at run.started_at) ended_early
          (with_driver λ d w. transact (tutorial_run_tx (completed_run d w run)))))
