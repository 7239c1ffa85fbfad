-- ===== src/Storage/Retold.antt =====
-- internal/storage/repositories.go: what `FinalizeMatch` stores of a replay, `GetMatchReplay` returns.
use terminal_wrestling_leagu.Common.{
  ℕ, ◌+◌, ◌<◌, ◌≤◌, ◌^◌, ◌≡◌, refl, sym, subst, ◌∙◌, ap, true, false, Option, some, List, [], ◌∷◌,
  map, All, arith, leb,
}
use terminal_wrestling_leagu.Common.Answer.{Answer, failed, done, Yields}
use terminal_wrestling_leagu.Common.Float64.{Float64}
use terminal_wrestling_leagu.Common.Text.{Str, is_empty}
use terminal_wrestling_leagu.Matchmaking.Match.{ReplayTurn}
use terminal_wrestling_leagu.Ranking.{Service}
use terminal_wrestling_leagu.Storage.{
  Time, ReplayTurnRow, MatchReplayWrite, MatchReplayTurn, MatchReplay, StorageError, decode_failed,
  parse_failed, query_failed,
}
use terminal_wrestling_leagu.Storage.Tx.{Driver, Work, called, known}
use terminal_wrestling_leagu.Storage.Tx.Keeps.{transact-Yields}
use terminal_wrestling_leagu.Storage.Tx.Runs.{
  >>=-runs, pure-runs, query-runs, known-runs, on_pool-runs,
}
use terminal_wrestling_leagu.Storage.Replays.{
  Json, or_fail, replay_row, turn_row, turns_of, insert_turn, sort_turns, read_turn, read_turns,
  read_replay, get_match_replay,
}
use terminal_wrestling_leagu.Storage.Matches.{
  FinalizeParams, FinalizedMatch, finalize_match, finalize_scored, accept_params, identified,
}
use terminal_wrestling_leagu.Storage.Stored.{TurnRows, IsStored, finalize_tx-stores}
use terminal_wrestling_leagu.Storage.Frame.{OfReplays}
use terminal_wrestling_leagu.Storage.ReadBack.{parse_uint-decimal}

-- A turn as `GetMatchReplay` shows it.
abbrev pub shown_turn : Time → ReplayTurn → MatchReplayTurn
shown_turn now turn = record {
  turn = turn.turn;
  relative_ms = turn.relative_ms;
  inputs = turn.inputs;
  checksums = turn.checksums;
  created_at = now;
}

-- The replay as it was handed over.
abbrev pub shown_replay : Str → MatchReplayWrite → Time → MatchReplay
shown_replay id replay now = record {
  match_id = id;
  seed = replay.seed;
  initial_state = replay.initial_state;
  turns = map (shown_turn now) replay.turns;
  created_at = now;
}

-- JSON gives the inputs back, and the hashes have 64 bits.
abbrev pub IsReadableTurn : Json → ReplayTurn → Type 0
IsReadableTurn json turn =
    ((text : Str)
      → json.inputs_text turn.inputs ≡ some text
      → json.read_inputs text ≡ some turn.inputs)
    × (turn.checksums.state_hash < 2 ^ 64)
    × (turn.checksums.roll_hash < 2 ^ 64)

-- Turns in the order of their numbers, which are `n` or more.
abbrev pub IsAscending : ℕ → List ReplayTurn → Type 0
IsAscending n [] = Unit
IsAscending n (turn ∷ turns) = (n ≤ turn.turn) × IsAscending turn.turn turns

abbrev pub IsReadable : Json → MatchReplayWrite → Type 0
IsReadable json replay =
    ((text : Str)
      → json.state_text replay.initial_state ≡ some text
      → json.read_state text ≡ some replay.initial_state)
    × (replay.seed < 2 ^ 64)
    × All (IsReadableTurn json) replay.turns
    × IsAscending 0 replay.turns

abbrev RowsAscend : ℕ → List ReplayTurnRow → Type 0
RowsAscend n [] = Unit
RowsAscend n (row ∷ rows) = (n ≤ row.turn) × RowsAscend row.turn rows

sort-RowsAscend : (n : ℕ) (rows : List ReplayTurnRow) → RowsAscend n rows → sort_turns rows ≡ rows
unfolding sort_turns insert_turn
sort-RowsAscend n [] h = refl
sort-RowsAscend n (row ∷ []) h = refl
sort-RowsAscend n (row ∷ next ∷ rows) (h, (le, hs)) =
    let first : leb row.turn next.turn ≡ true = ground arith in
    ap (insert_turn row) (sort-RowsAscend row.turn (next ∷ rows) (le, hs)) ∙ simp first refl

rows-RowsAscend :
    (json : Json) (id : Str) (now n : ℕ) (turns : List ReplayTurn) (rows : List ReplayTurnRow)
    → TurnRows json id now turns rows
    → IsAscending n turns
    → RowsAscend n rows
unfolding turn_row
rows-RowsAscend json id now n [] [] h a = tt
rows-RowsAscend json id now n [] (row ∷ rows) h a = absurd h
rows-RowsAscend json id now n (turn ∷ turns) [] h a = absurd h
rows-RowsAscend json id now n (turn ∷ turns) (row ∷ rows) ((text, e, same), hs) (le, a) =
    subst (λ r. RowsAscend n (r ∷ rows)) (sym same)
      (le, rows-RowsAscend json id now turn.turn turns rows hs a)

module _ {F : Type 0} where
  known_some :
      {A : Type 0} (e : StorageError) (o : Option A) (a : A) (d : Driver) (w : Work F)
      → o ≡ some a
      → known (or_fail e o) d w ≡ done (a, w)
  known_some e o a d w h = rw h (known-runs a d w)

  turn-runs :
      (json : Json) (id : Str) (now : Time) (turn : ReplayTurn) (text : Str) (d : Driver)
      (w : Work F)
      → json.inputs_text turn.inputs ≡ some text
      → IsReadableTurn json turn
      → read_turn json (turn_row id turn text now) d w ≡ done (shown_turn now turn, w)
  unfolding read_turn turn_row
  turn-runs json id now turn text d w e (reads, state, roll) =
      >>=-runs _ _ d (known_some decode_failed _ turn.inputs d w (reads text e)) (
        >>=-runs _ _ d (known_some parse_failed _ _ d w (parse_uint-decimal _ state)) (
          >>=-runs _ _ d (known_some parse_failed _ _ d w (parse_uint-decimal _ roll))
            (pure-runs _ d w)))

  turns-runs :
      (json : Json) (id : Str) (now : Time) (turns : List ReplayTurn) (rows : List ReplayTurnRow)
      (d : Driver) (w : Work F)
      → TurnRows json id now turns rows
      → All (IsReadableTurn json) turns
      → read_turns json rows d w ≡ done (map (shown_turn now) turns, w)
  unfolding read_turns
  turns-runs json id now [] [] d w h a = pure-runs _ d w
  turns-runs json id now [] (row ∷ rows) d w h a = absurd h
  turns-runs json id now (turn ∷ turns) [] d w h a = absurd h
  turns-runs json id now (turn ∷ turns) (row ∷ rows) d w ((text, e, same), hs) (readable, a) =
      >>=-runs _ _ d
        (subst (λ r. read_turn json r d w ≡ done (shown_turn now turn, w)) (sym same)
          (turn-runs json id now turn text d w e readable))
        (>>=-runs _ _ d (turns-runs json id now turns rows d w hs a) (pure-runs _ d w))

  read-runs :
      (json : Json) (id : Str) (replay : MatchReplayWrite) (now : Time) (text : Str) (d : Driver)
      (w : Work F)
      → IsReadable json replay
      → json.state_text replay.initial_state ≡ some text
      → TurnRows json id now replay.turns (turns_of id w.tables.replay_turns)
      → d.fails w.calls ≡ false
      → read_replay json id (some (replay_row id replay text now)) d w
        ≡ done (shown_replay id replay now, called w.tables w)
  unfolding read_replay replay_row
  read-runs json id replay now text d w (reads, seed, turns, ascending) e rows calm =
      let sorted =
        sort-RowsAscend 0 (turns_of id w.tables.replay_turns)
          (rows-RowsAscend json id now 0 replay.turns _ rows ascending) in
      >>=-runs _ _ d (known_some parse_failed _ _ d w (parse_uint-decimal _ seed)) (
        >>=-runs _ _ d (known_some decode_failed _ _ d w (reads text e)) (
          >>=-runs _ _ d (query-runs query_failed _ d w calm) (
            >>=-runs _ _ d
              (subst
                (λ rs.
                  read_turns json rs d (called w.tables w)
                  ≡ done (map (shown_turn now) replay.turns, called w.tables w))
                (sym sorted) (turns-runs json id now replay.turns _ d _ rows turns))
              (pure-runs _ d _))))

  get-runs :
      (json : Json) (id : Str) (replay : MatchReplayWrite) (now : Time) (d : Driver) (w : Work F)
      → IsReadable json replay
      → is_empty id ≡ false
      → OfReplays (IsStored json id replay now) w.tables
      → ((n : ℕ) → d.fails n ≡ false)
      → (get_match_replay json id d w).0 ≡ done (shown_replay id replay now)
  unfolding get_match_replay
  get-runs json id replay now d w readable named ((text, e, found), rows) calm = simp named (
      on_pool-runs _ d (
        >>=-runs _ _ d (query-runs query_failed _ d w (calm w.calls)) (
          subst
            (λ o.
              read_replay json id o d (called w.tables w)
              ≡ done (shown_replay id replay now, called w.tables (called w.tables w)))
            (sym found)
            (read-runs json id replay now text d (called w.tables w) readable e rows
              (calm (w.calls + 1))))))

module _ {F : Type 0} ⦃fl : Float64 F⦄ (svc : Service F) (json : Json) (params : FinalizeParams)
    (replay : MatchReplayWrite) (given : params.replay ≡ some replay) where
  scored-stores :
      (scores : Answer StorageError (F × F)) (d : Driver) (w : Work F)
      → turns_of params.match_id w.tables.replay_turns ≡ []
      → Yields
          (λ m.
            OfReplays
              (IsStored json params.match_id replay m.match_row.created_at)
              ((finalize_scored svc json params scores d w).1.tables))
          ((finalize_scored svc json params scores d w).0)
  unfolding finalize_scored
  scored-stores (failed reason) d w h = tt
  scored-stores (done scores) d w h =
      transact-Yields (λ m. OfReplays (IsStored json params.match_id replay m.match_row.created_at))
        (finalize_tx-stores json params replay given svc scores) d w h

  -- A match that has an identifier, for which no turns are stored yet, and a replay that JSON gives
  -- back, with numbers of 64 bits and its turns in order: if `FinalizeMatch` returns no error, then
  -- `GetMatchReplay`, with a driver that does not fail, returns the seed, the initial state and the
  -- turns of that replay, all with the time at which the match was stored.
  pub finalize-get_match_replay :
      (d d' : Driver) (w : Work F) (m : FinalizedMatch F)
      → is_empty params.match_id ≡ false
      → turns_of params.match_id w.tables.replay_turns ≡ []
      → IsReadable json replay
      → ((n : ℕ) → d'.fails n ≡ false)
      → (finalize_match svc json params d w).0 ≡ done m
      → (get_match_replay json params.match_id d' ((finalize_match svc json params d w).1)).0
        ≡ done (shown_replay params.match_id replay m.match_row.created_at)
  unfolding finalize_match
  finalize-get_match_replay d d' w m named fresh readable calm ends =
      let scores = accept_params {F = F} params in
      let same : identified (d.new_id w.calls) params ≡ params = simp named refl in
      subst
        (λ p.
          (finalize_scored svc json p scores d w).0 ≡ done m
          → (get_match_replay json params.match_id d' ((finalize_scored svc json p scores d w).1)).0
            ≡ done (shown_replay params.match_id replay m.match_row.created_at))
        (sym same)
        (λ e.
          get-runs json params.match_id replay m.match_row.created_at d' _ readable named
            (subst
              (Yields λ m.
                OfReplays (IsStored json params.match_id replay m.match_row.created_at)
                  ((finalize_scored svc json params scores d w).1.tables))
              e (scored-stores scores d w fresh))
            calm)
        ends
