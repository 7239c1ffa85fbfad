-- ===== src/Storage/Timeline.antt =====
-- internal/storage/repositories.go: the seasons follow one another.
use terminal_wrestling_leagu.Common.{
  ℕ, ◌+◌, ◌≡◌, refl, sym, true, false, ◌||◌, Option, none, some, List, [], ◌∷◌, if_keeps, ltb, leb,
  map, subst,
}
use terminal_wrestling_leagu.Common.Text.{Str, str_eq, str_eq_refl}
use terminal_wrestling_leagu.Storage.{
  Time, Season, RatingEntry, PlayerProfile, TutorialRunRow, season_status_active,
  season_status_closed, Tables, query_failed, update_failed, insert_failed,
}
use terminal_wrestling_leagu.Storage.Tx.Hoare.{
  Hoare, Writes, exec-pure-Hoare, unless-Writes, pure-Hoare, query-Hoare, exec-Hoare,
  fresh_id-Hoare, >>=-Hoare,
}
use terminal_wrestling_leagu.Storage.Seasons.{
  is_active_season, higher, active_season, close_season, clashes, put_season, create_next_season_tx,
  close_and_create, ensure_found, ensure_active_season_tx, season_duration,
}

-- Closed seasons before the season number `n`, which began at `t`: numbered down to 1, each ending
-- where the next one begins.
abbrev pub IsPast : ℕ → Time → List Season → Type 0
IsPast n t [] = n ≡ 1
IsPast n t (s ∷ ss) =
    (n ≡ s.number + 1)
    × (t ≡ s.ends_at)
    × (s.status ≡ season_status_closed)
    × IsPast s.number s.starts_at ss

-- Newest first: no season yet, or one that is active and thirty days long, with all before it closed.
abbrev pub IsTimeline : List Season → Type 0
IsTimeline [] = Unit
IsTimeline (s ∷ ss) =
    (s.status ≡ season_status_active)
    × (s.ends_at ≡ s.starts_at + season_duration)
    × IsPast s.number s.starts_at ss

closed_inactive : (s : Season) → s.status ≡ season_status_closed → is_active_season s ≡ false
unfolding is_active_season
closed_inactive s e = rw e refl

active_active : (s : Season) → s.status ≡ season_status_active → is_active_season s ≡ true
unfolding is_active_season
active_active s e = rw e refl

-- The seasons follow one another and `s` is the one that runs.
abbrev pub IsRunning : Season → List Season → Type 0
IsRunning s ss = IsTimeline ss × ((past : List Season) × (ss ≡ s ∷ past))

-- No active season among the closed ones.
past_inactive : (n : ℕ) (t : Time) (ss : List Season) → IsPast n t ss → active_season ss ≡ none
unfolding active_season
past_inactive n t [] h = refl
past_inactive n t (s ∷ ss) (_, _, closed, h) =
    rw (closed_inactive s closed) (past_inactive s.number s.starts_at ss h)

-- The season that the query finds is the newest one.
pub active-newest :
    (s : Season) (ss : List Season) → IsTimeline (s ∷ ss) → active_season (s ∷ ss) ≡ some s
unfolding active_season higher
active-newest s ss (active, _, h) =
    simp (active_active s active, past_inactive s.number s.starts_at ss h) refl

-- Closing a season changes nothing of an older one but the time of its change.
close_keeps :
    (id : Str) (now : Time) (s : Season)
    → (P : Season → Type 0) → P s
    → P (record s { status = season_status_closed; updated_at = now })
    → P (close_season id now s)
unfolding close_season
close_keeps id now s P h h' = if_keeps P (str_eq s.id id) _ _ h' h

close-IsPast :
    (id : Str) (now n : ℕ) (t : Time) (ss : List Season)
    → IsPast n t ss
    → IsPast n t (map (close_season id now) ss)
close-IsPast id now n t [] h = h
close-IsPast id now n t (s ∷ ss) (a, b, c, h) =
    close_keeps id now s
      (λ s'.
        (n ≡ s'.number + 1)
        × (t ≡ s'.ends_at)
        × (s'.status ≡ season_status_closed)
        × IsPast s'.number s'.starts_at (map (close_season id now) ss))
      (a, b, c, close-IsPast id now s.number s.starts_at ss h)
      (a, b, refl, close-IsPast id now s.number s.starts_at ss h)

-- Once the newest season is closed, all are.
close-newest :
    (now : Time) (s : Season) (ss : List Season)
    → IsPast s.number s.starts_at ss
    → IsPast (s.number + 1) s.ends_at (map (close_season s.id now) (s ∷ ss))
unfolding close_season
close-newest now s ss h =
    simp (str_eq_refl s.id) (refl, refl, refl, close-IsPast s.id now s.number s.starts_at ss h)

-- What the query of the active season finds.
abbrev pub Found : Time → Option Season → List Season → Type 0
Found now none ss = IsPast 1 now ss
Found now (some s) ss =
    IsRunning s ss × IsPast (s.number + 1) s.ends_at (map (close_season s.id now) ss)

active-Found : (now : Time) (ss : List Season) → IsTimeline ss → Found now (active_season ss) ss
unfolding active_season
active-Found now [] h = refl
active-Found now (s ∷ ss) (active, long, past) =
    subst (λ o. Found now o (s ∷ ss)) (sym (active-newest s ss (active, long, past)))
      (((active, long, past), (ss, refl)), close-newest now s ss past)

-- A property of the tables that the seasons are not part of.
abbrev pub Rest :
    {F : Type 0}
    → (List (RatingEntry F) → List PlayerProfile → List TutorialRunRow → Type 0)
    → Tables F
    → Type 0
Rest R t = R t.ratings t.profiles t.tutorial_runs

-- What else holds of the tables, `R`, speaks of other tables.
module _ {F : Type 0}
    (R : List (RatingEntry F) → List PlayerProfile → List TutorialRunRow → Type 0) where
  -- A new season joins the past.
  insert-IsRunning :
      (s : Season) (t : Tables F)
      → s.status ≡ season_status_active
      → s.ends_at ≡ s.starts_at + season_duration
      → IsPast s.number s.starts_at t.seasons × Rest R t
      → Writes (λ t'. IsRunning s t'.seasons × Rest R t') (put_season s t)
  unfolding put_season
  insert-IsRunning s t active long (past, r) =
      unless-Writes (λ t'. IsRunning s t'.seasons × Rest R t')
        (clashes s t.seasons || leb s.ends_at s.starts_at) _
        (((active, long, past), (t.seasons, refl)), r)

  create_next_season_tx-Hoare :
      (number : ℕ) (starts_at now : Time)
      → Hoare
          (λ t. IsPast number starts_at t.seasons × Rest R t)
          (create_next_season_tx number starts_at season_duration now)
          (λ s t. IsRunning s t.seasons × Rest R t)
  unfolding create_next_season_tx
  create_next_season_tx-Hoare number starts_at now =
      >>=-Hoare (λ _ t. IsPast number starts_at t.seasons × Rest R t) fresh_id-Hoare
        λ id. exec-pure-Hoare _ insert_failed _ λ t h. insert-IsRunning _ t refl refl h

  close_and_create-Hoare :
      (now : Time) (s : Season)
      → Hoare
          (λ t. Found now (some s) t.seasons × Rest R t)
          (close_and_create now s)
          (λ s t. IsRunning s t.seasons × Rest R t)
  unfolding close_and_create
  close_and_create-Hoare now s =
      >>=-Hoare (λ _ t. IsPast (s.number + 1) s.ends_at t.seasons × Rest R t)
        (exec-Hoare update_failed _ λ t ((_, past), r). (past, r))
        λ _. create_next_season_tx-Hoare (s.number + 1) s.ends_at now

  ensure_found-Hoare :
      (now : Time) (o : Option Season)
      → Hoare
          (λ t. Found now o t.seasons × Rest R t)
          (ensure_found now o)
          (λ s t. IsRunning s t.seasons × Rest R t)
  unfolding ensure_found
  ensure_found-Hoare now none = create_next_season_tx-Hoare 1 now now
  ensure_found-Hoare now (some s) =
      if_keeps
        (λ m.
          Hoare (λ t. Found now (some s) t.seasons × Rest R t) m
            (λ s t. IsRunning s t.seasons × Rest R t))
        (ltb now s.ends_at) _ _
        (pure-Hoare {P = λ t. Found now (some s) t.seasons × Rest R t} s λ t h. (h.0.0, h.1))
        (close_and_create-Hoare now s)

  pub ensure_active_season_tx-Hoare :
      (now : Time)
      → Hoare
          (λ t. IsTimeline t.seasons × Rest R t)
          (ensure_active_season_tx now)
          (λ s t. IsRunning s t.seasons × Rest R t)
  unfolding ensure_active_season_tx
  ensure_active_season_tx-Hoare now =
      >>=-Hoare (λ o t. Found now o t.seasons × Rest R t)
        (query-Hoare query_failed _ λ t (h, r). (active-Found now t.seasons h, r))
        (ensure_found-Hoare now)
