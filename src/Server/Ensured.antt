-- ===== src/Server/Ensured.antt =====
-- cmd/server/player_ensurer.go: a session has its player.
use terminal_wrestling_leagu.Common.{
  ℕ, ◌+◌, ◌≡◌, refl, sym, subst, inl, inr, true, false, Option, none, some, List, [], ◌∷◌,
  Bool-cases, arith,
}
use terminal_wrestling_leagu.Common.Answer.{Answer, failed, done}
use terminal_wrestling_leagu.Common.Text.{Str, str_eq, str_eq_refl, str_eq_iff, is_empty}
use terminal_wrestling_leagu.Storage.{
  Player, PlayerProfile, StorageError, err_not_found, unique_violation, insert_failed, query_failed,
}
use terminal_wrestling_leagu.Storage.Tx.{
  Driver, Work, called, raise, unless, fresh_id, now_fn, guarded, with_driver,
}
use terminal_wrestling_leagu.Storage.Tx.Runs.{
  >>=-runs, >>=-breaks, pure-runs, query-runs, exec-runs, exec-breaks, on_pool-done, on_pool-failed,
  and_then-runs,
}
use terminal_wrestling_leagu.Storage.Players.{
  player_by_handle, player_by_id, player_clashes, found_player, put_player, get_by_handle,
  create_player,
}
use terminal_wrestling_leagu.Storage.Profiles.{
  profile_of, upsert_profile, blank_profile, found_profile, put_profile, get_profile, write_profile,
  get_or_create_profile,
}
use terminal_wrestling_leagu.Server.Ensurer.{session_of, created, looked_up, ensure_player_session}

-- The profile that is written is read back.
profile_of-upsert :
    (player : Str) (new : PlayerProfile) (ps : List PlayerProfile)
    → new.player_id ≡ player
    → (q : PlayerProfile) × (profile_of player (upsert_profile new (λ p. p) ps) ≡ some q)
      × (q.player_id ≡ player)
unfolding profile_of upsert_profile
profile_of-upsert player new [] h = (new, rw (h, str_eq_refl player) refl, h)
profile_of-upsert player new (p ∷ ps) h = elim (Bool-cases (str_eq p.player_id player)) [
  | inl e ↦
      let e' : str_eq p.player_id new.player_id ≡ true = rw h e in
      (p, simp e' (simp e refl), (str_eq_iff p.player_id player).0 e)
  | inr e ↦
      let (q, f, g) = profile_of-upsert player new ps h in
      let e' : str_eq p.player_id new.player_id ≡ false = rw h e in (q, simp e' (simp e f), g)
]

blank_own : (player : Str) (now : ℕ) → (blank_profile player now).player_id ≡ player
unfolding blank_profile
blank_own player now = refl

-- A clash is one of identifiers or of handles.
clash-handle :
    (p : Player) (qs : List Player)
    → player_clashes p qs ≡ true
    → player_by_id p.id qs ≡ none
    → (q : Player) × (player_by_handle p.handle qs ≡ some q)
unfolding player_clashes player_by_id player_by_handle
clash-handle p [] h fresh = absurd (ground arith)
clash-handle p (q ∷ qs) h fresh = elim (Bool-cases (str_eq q.handle p.handle)) [
  | inl e ↦ (q, simp e refl)
  | inr e ↦ elim (Bool-cases (str_eq q.id p.id)) [
    | inl same ↦ absurd (ground arith)
    | inr differ ↦
        let more : player_clashes p qs ≡ true = ground arith in
        let fresh' : player_by_id p.id qs ≡ none = ground arith in
        let (x, found) = clash-handle p qs more fresh' in (x, simp e found)
  ]
]

new_found :
    (handle : Str) (p : Player) (ps : List Player)
    → p.handle ≡ handle
    → player_by_handle handle (p ∷ ps) ≡ some p
unfolding player_by_handle
new_found handle p ps e = rw (e, str_eq_refl handle) refl

-- A session with its player, in the tables that are left.
abbrev pub HasSession :
    {F : Type 0} → Str → Answer StorageError (Str × PlayerProfile) × Work F → Type 0
HasSession handle r =
    (p : Player) × ((q : PlayerProfile) × (r.0 ≡ done (p.id, q))
      × (q.player_id ≡ p.id)
      × (player_by_handle handle r.1.tables.players ≡ some p))

module _ {F : Type 0} (d : Driver) (calm : (n : ℕ) → d.fails n ≡ false) where
  -- What the lookup of a handle returns.
  abbrev Looked : Option Player → Work F → Answer StorageError Player × Work F
  Looked none w = (failed err_not_found, w)
  Looked (some p) w = (done p, called w.tables w)

  get_by_handle-runs :
      (handle : Str) (w : Work F) (o : Option Player)
      → player_by_handle handle w.tables.players ≡ o
      → get_by_handle handle d w ≡ Looked o w
  unfolding get_by_handle found_player raise
  get_by_handle-runs handle w none e =
      on_pool-failed _ d (>>=-runs _ _ d (query-runs query_failed _ d w (calm w.calls)) (rw e refl))
  get_by_handle-runs handle w (some p) e =
      on_pool-done _ d
        (>>=-runs _ _ d (query-runs query_failed _ d w (calm w.calls)) (rw e (pure-runs p d _)))

  -- A profile for the player, whose row and those of the others stay.
  profile-runs :
      (player : Str) (w : Work F)
      → is_empty player ≡ false
      → (q : PlayerProfile) × ((w' : Work F) × (get_or_create_profile player d w ≡ (done q, w'))
          × (q.player_id ≡ player)
          × (w'.tables.players ≡ w.tables.players))
  unfolding get_or_create_profile guarded with_driver write_profile get_profile put_profile
      found_profile
  profile-runs player w named =
      let new = blank_profile player (d.now w.calls) in
      let t = record (w.tables) { profiles = upsert_profile new (λ p. p) w.tables.profiles } in
      let (q, found, own) = profile_of-upsert player new w.tables.profiles (blank_own player _) in
      (
        q,
        (
          called t (called t w),
          simp named (
              and_then-runs _ _ d
                (on_pool-done _ d
                  (exec-runs insert_failed insert_failed _ d w _ (calm w.calls) refl))
                (on_pool-done _ d (
                  >>=-runs _ _ d (query-runs query_failed _ d _ (calm (w.calls + 1)))
                    (rw found (pure-runs q d _))))),
          own,
          refl,
        ),
      )

  session-runs :
      (p : Player) (w : Work F)
      → is_empty p.id ≡ false
      → (q : PlayerProfile) × ((w' : Work F) × (session_of p d w ≡ (done (p.id, q), w'))
          × (q.player_id ≡ p.id)
          × (w'.tables.players ≡ w.tables.players))
  unfolding session_of
  session-runs p w named =
      let (q, (w', runs, own, same)) = profile-runs p.id w named in
      (q, (w', and_then-runs _ _ d runs (on_pool-done _ d (pure-runs _ d w')), own, same))

  -- The row that `Create` writes.
  abbrev new_player : Str → Work F → Player
  new_player handle w = record {
    id = d.new_id w.calls;
    handle = handle;
    created_at = d.now w.calls;
    updated_at = d.now w.calls;
  }

  create-runs :
      (handle : Str) (w : Work F)
      → player_clashes (new_player handle w) w.tables.players ≡ false
      → create_player handle d w ≡ (
        done (new_player handle w),
        called (record (w.tables) { players = new_player handle w ∷ w.tables.players }) w,
      )
  unfolding create_player now_fn fresh_id put_player unless
  create-runs handle w free = on_pool-done _ d (
      >>=-runs _ _ d refl (
        >>=-runs _ _ d refl (
          >>=-runs _ _ d
            (exec-runs unique_violation insert_failed _ d w _ (calm w.calls) (simp free refl))
            (pure-runs (new_player handle w) d _))))

  create-clashes :
      (handle : Str) (w : Work F)
      → player_clashes (new_player handle w) w.tables.players ≡ true
      → create_player handle d w ≡ (failed unique_violation, w)
  unfolding create_player now_fn fresh_id put_player unless
  create-clashes handle w taken = on_pool-failed _ d (
      >>=-runs _ _ d refl (
        >>=-runs _ _ d refl (
          >>=-breaks _ _ d
            (exec-breaks unique_violation insert_failed _ d w (calm w.calls) (simp taken refl)))))

  session-HasSession :
      (handle : Str) (p : Player) (w : Work F)
      → is_empty p.id ≡ false
      → player_by_handle handle w.tables.players ≡ some p
      → HasSession handle (session_of p d w)
  session-HasSession handle p w named found =
      let (q, (w', runs, own, same)) = session-runs p w named in
      subst (HasSession handle) (sym runs) (p, (q, refl, own, rw same found))

  -- The player is made, or has been made by another session.
  created-HasSession :
      (handle : Str) (w : Work F)
      → ((p : Player) → player_by_handle handle w.tables.players ≡ some p → is_empty p.id ≡ false)
      → is_empty (d.new_id w.calls) ≡ false
      → player_by_id (d.new_id w.calls) w.tables.players ≡ none
      → HasSession handle
          (created handle ((create_player handle d w).0) d ((create_player handle d w).1))
  unfolding created
  created-HasSession handle w named new_named fresh =
      elim (Bool-cases (player_clashes (new_player handle w) w.tables.players)) [
        | inr free ↦
            let p = new_player handle w in
            subst (λ r. HasSession handle (created handle (r.0) d (r.1)))
              (sym (create-runs handle w free))
              (session-HasSession handle p _ new_named (new_found handle p _ refl))
        | inl taken ↦
            let (q, found) = clash-handle (new_player handle w) w.tables.players taken fresh in
            subst (λ r. HasSession handle (created handle (r.0) d (r.1)))
              (sym (create-clashes handle w taken))
              (subst (HasSession handle)
                (sym
                  (and_then-runs _ session_of d (get_by_handle-runs handle w (some q) found) refl))
                (session-HasSession handle q (called w.tables w) (named q found) found))
      ]

  looked-HasSession :
      (others : Work F → Work F) (handle : Str) (w : Work F) (o : Option Player)
      → player_by_handle handle w.tables.players ≡ o
      → ((p : Player) → player_by_handle handle w.tables.players ≡ some p → is_empty p.id ≡ false)
      → HasSession handle (
          created handle
            ((create_player handle d (others w)).0)
            d
            ((create_player handle d (others w)).1))
      → HasSession handle (looked_up others handle ((Looked o w).0) d ((Looked o w).1))
  unfolding looked_up
  looked-HasSession others handle w none e named made = made
  looked-HasSession others handle w (some p) e named made =
      session-HasSession handle p (called w.tables w) (named p e) e

  -- The driver does not fail, the players that have the handle have an id, and the id that is made for
  -- a new player is none that is there: then the session has its player. The player of the handle, in
  -- the tables that are left, is the one whose id and profile are returned, whether it was there, or is
  -- made, or another session has made it after the lookup.
  pub ensure_player_session_lem :
      (others : Work F → Work F) (handle : Str) (w : Work F)
      → ((p : Player) → player_by_handle handle w.tables.players ≡ some p → is_empty p.id ≡ false)
      → ((p : Player)
          → player_by_handle handle (others w).tables.players ≡ some p
          → is_empty p.id ≡ false)
      → is_empty (d.new_id (others w).calls) ≡ false
      → player_by_id (d.new_id (others w).calls) (others w).tables.players ≡ none
      → HasSession handle (ensure_player_session others handle d w)
  unfolding ensure_player_session
  ensure_player_session_lem others handle w named named' new_named fresh =
      subst (λ r. HasSession handle (looked_up others handle (r.0) d (r.1)))
        (sym (get_by_handle-runs handle w _ refl))
        (looked-HasSession others handle w _ refl named
          (created-HasSession handle (others w) named' new_named fresh))
