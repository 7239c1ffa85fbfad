-- ===== src/Storage/Counted.antt =====
-- internal/storage/repositories_m5.go: a profile counts the runs of the tutorial.
use terminal_wrestling_leagu.Common.{
  ℕ, ◌+◌, ◌≡◌, refl, sym, subst, ◌∙◌, false, List, [], ◌∷◌, if◌then◌else◌, Bool-cases, inl, inr,
  arith,
}
use terminal_wrestling_leagu.Common.Text.{Str, str_eq, str_eq_iff, str_eq_comm}
use terminal_wrestling_leagu.Storage.{
  Time, Season, RatingEntry, PlayerProfile, TutorialRunRow, Tables, insert_failed,
}
use terminal_wrestling_leagu.Storage.Tx.Hoare.{
  Hoare, unless-Writes, exec-Hoare, exec-pure-Hoare, >>=-Hoare,
}
use terminal_wrestling_leagu.Storage.Profiles.{
  upsert_profile, blank_profile, one_more_run, put_profile, put_run, tutorial_run_tx,
}

-- What the profile of a player counts; no profile counts nothing.
unfoldable pub runs_counted : Str → List PlayerProfile → ℕ
runs_counted player [] = 0
runs_counted player (p ∷ ps) =
    let rest = runs_counted player ps in if str_eq p.player_id player then p.tutorial_runs else rest

unfoldable pub count_runs : Str → List TutorialRunRow → ℕ
count_runs player [] = 0
count_runs player (r ∷ rs) =
    let rest = count_runs player rs in if str_eq r.player_id player then rest + 1 else rest

abbrev pub CountsRuns : List PlayerProfile → List TutorialRunRow → Type 0
CountsRuns ps rs = (player : Str) → runs_counted player ps ≡ count_runs player rs

abbrev pub IsCounted : {F : Type 0} → Tables F → Type 0
IsCounted t = CountsRuns t.profiles t.tutorial_runs

-- A change of a profile that adds `n` to its count.
abbrev pub Adds : ℕ → (PlayerProfile → PlayerProfile) → Type 0
Adds n change =
    (p : PlayerProfile)
    → ((change p).player_id ≡ p.player_id) × ((change p).tutorial_runs ≡ p.tutorial_runs + n)

-- A row of another player than the new one counts as before.
passes :
    (player here new : Str) (runs before after n : ℕ)
    → str_eq here new ≡ false
    → after ≡ before + (if str_eq new player then n else 0)
    → (if str_eq here player then runs else after)
      ≡ (if str_eq here player then runs else before) + (if str_eq new player then n else 0)
passes player here new runs before after n other e = elim (Bool-cases (str_eq here player)) [
  | inl mine ↦
      let key : here ≡ player = (str_eq_iff here player).0 mine in
      simp (mine, str_eq_comm new player) (rw (sym key, other) (omega arith))
  | inr far ↦ simp far e
]

-- The count of the player goes up, and that of others stays.
upsert_counts :
    (n : ℕ) (new : PlayerProfile) (change : PlayerProfile → PlayerProfile) (player : Str)
    (ps : List PlayerProfile)
    → Adds n change
    → new.tutorial_runs ≡ n
    → runs_counted player (upsert_profile new change ps)
      ≡ runs_counted player ps + (if str_eq new.player_id player then n else 0)
unfolding upsert_profile runs_counted
upsert_counts n new change player [] h e = ground arith
upsert_counts n new change player (p ∷ ps) h e =
    let rest = upsert_counts n new change player ps h e in
    let (same, more) = h p in
    elim (Bool-cases (str_eq p.player_id new.player_id)) [
      | inl here ↦
          let key : p.player_id ≡ new.player_id = (str_eq_iff p.player_id new.player_id).0 here in
          simp here (rw (same, more, key) (ground arith))
      | inr other ↦
          simp other (passes player p.player_id new.player_id p.tutorial_runs _ _ n other rest)
    ]

-- A run and its profile, one_more_run together.
count-run :
    (run : TutorialRunRow) (player : Str) (rs : List TutorialRunRow)
    → count_runs player (run ∷ rs)
      ≡ count_runs player rs + (if str_eq run.player_id player then 1 else 0)
unfolding count_runs
count-run run player rs = ground arith

counted-Adds : (now : Time) → Adds 1 (one_more_run now)
unfolding one_more_run
counted-Adds now p = (refl, refl)

blank_counted :
    (now : Time) (player : Str)
    → ((one_more_run now (blank_profile player now)).tutorial_runs ≡ 1)
      × ((one_more_run now (blank_profile player now)).player_id ≡ player)
unfolding one_more_run blank_profile
blank_counted now player = (refl, refl)

-- The profile is one_more_run after the run.
count-profile :
    (run : TutorialRunRow) (player : Str) (ps : List PlayerProfile)
    → runs_counted player (
        upsert_profile
          (one_more_run run.created_at (blank_profile run.player_id run.created_at))
          (one_more_run run.created_at)
          ps)
      ≡ runs_counted player ps + (if str_eq run.player_id player then 1 else 0)
count-profile run player ps =
    let (one, own) = blank_counted run.created_at run.player_id in
    let added =
      upsert_counts 1 (one_more_run run.created_at (blank_profile run.player_id run.created_at))
        (one_more_run run.created_at) player ps (counted-Adds run.created_at) one in
    subst
      (λ id.
        runs_counted player (
          upsert_profile (one_more_run run.created_at (blank_profile run.player_id run.created_at))
            (one_more_run run.created_at) ps)
        ≡ runs_counted player ps + (if str_eq id player then 1 else 0))
      own added

module _ {F : Type 0} where
  -- The tables after the run, before its profile; `R` speaks of other tables.
  abbrev Ahead : (Tables F → Type 0) → TutorialRunRow → Tables F → Type 0
  Ahead R run t =
      R t
      × ((player : Str)
          → runs_counted player t.profiles + (if str_eq run.player_id player then 1 else 0)
            ≡ count_runs player t.tutorial_runs)

  pub tutorial_run_tx-Hoare :
      (R : List Season → List (RatingEntry F) → Type 0) (run : TutorialRunRow)
      → Hoare
          (λ t. R t.seasons t.ratings × IsCounted t)
          (tutorial_run_tx run)
          (λ _ t. R t.seasons t.ratings × IsCounted t)
  unfolding tutorial_run_tx put_run put_profile
  tutorial_run_tx-Hoare R run =
      >>=-Hoare (λ _. Ahead (λ t. R t.seasons t.ratings) run)
        (exec-Hoare insert_failed _ λ t (r, h).
          unless-Writes (Ahead (λ t. R t.seasons t.ratings) run) _ _
            (r, λ player. simp (h player, count-run run player t.tutorial_runs) refl))
        λ _.
          exec-pure-Hoare run insert_failed _
            λ t (r, h). (r, λ player. count-profile run player t.profiles ∙ h player)

  -- A profile for the player, new or changed, with the same count.
  pub put_profile-IsCounted :
      (new : PlayerProfile) (change : PlayerProfile → PlayerProfile)
      → Adds 0 change
      → new.tutorial_runs ≡ 0
      → (t : Tables F) → IsCounted t
      → CountsRuns (upsert_profile new change t.profiles) t.tutorial_runs
  put_profile-IsCounted new change h e t counts player =
      upsert_counts 0 new change player t.profiles h e ∙ simp (counts player) (ground arith)
