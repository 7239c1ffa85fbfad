-- ===== src/Storage/Stored.antt =====
-- internal/storage/repositories.go: the rows of a replay that `FinalizeMatch` has stored.
use terminal_wrestling_leagu.Common.{
  ◌≡◌, refl, sym, subst, ◌∙◌, ap, Option, none, some, List, [], ◌∷◌, ◌++◌, append-nil, append_assoc,
  Bool-cases, inl, inr,
}
use terminal_wrestling_leagu.Common.Answer.{Yields}
use terminal_wrestling_leagu.Common.Float64.{Float64}
use terminal_wrestling_leagu.Common.Text.{Str, str_eq, str_eq_refl}
use terminal_wrestling_leagu.Matchmaking.Match.{ReplayTurn}
use terminal_wrestling_leagu.Ranking.{Service}
use terminal_wrestling_leagu.Storage.{
  Time, MatchRow, MatchResultRow, ReplayRow, ReplayTurnRow, MatchReplayWrite, Tables, insert_failed,
  encode_failed,
}
use terminal_wrestling_leagu.Storage.Tx.Hoare.{
  Hoare, Writes, pure-Hoare, exec-Hoare, known-Hoare, now_fn-Hoare, given-Hoare, some-Hoare,
  weaken-Hoare, unless-Writes, >>=-Hoare,
}
use terminal_wrestling_leagu.Storage.Replays.{
  Json, or_fail, replay_row, turn_row, find_replay, turns_of, put_replay, put_turn, insert_turn_tx,
  insert_turns_tx, insert_match_replay_tx,
}
use terminal_wrestling_leagu.Storage.Matches.{
  FinalizeParams, Rated, insert_match_tx, insert_match_result_tx, insert_replay_tx, store_match,
  put_match, put_result, finalize_tx, finalized_row,
}
use terminal_wrestling_leagu.Storage.Frame.{
  OfReplays, Frames, rate_match-Frames, upsert_rating-Frames,
}

-- The rows of turns, in order.
abbrev pub TurnRows : Json → Str → Time → List ReplayTurn → List ReplayTurnRow → Type 0
TurnRows json id now [] [] = Unit
TurnRows json id now [] (row ∷ rows) = ⊥
TurnRows json id now (turn ∷ turns) [] = ⊥
TurnRows json id now (turn ∷ turns) (row ∷ rows) =
    ((text : Str) × (json.inputs_text turn.inputs ≡ some text) × (row ≡ turn_row id turn text now))
    × TurnRows json id now turns rows

-- The one row of a replay.
abbrev pub HeadRow : Json → Str → MatchReplayWrite → Time → List ReplayRow → Type 0
HeadRow json id replay now rows =
    (text : Str) × (json.state_text replay.initial_state ≡ some text)
    × (find_replay id rows ≡ some (replay_row id replay text now))

-- The tables hold the replay, as it was written at the time `now`.
abbrev pub IsStored :
    Json → Str → MatchReplayWrite → Time → List ReplayRow → List ReplayTurnRow → Type 0
IsStored json id replay now heads rows =
    HeadRow json id replay now heads × TurnRows json id now replay.turns (turns_of id rows)

turns_of-snoc :
    (id : Str) (rows : List ReplayTurnRow) (row : ReplayTurnRow)
    → row.match_id ≡ id
    → turns_of id (rows ++ (row ∷ [])) ≡ turns_of id rows ++ (row ∷ [])
unfolding turns_of
turns_of-snoc id [] row h = rw (h, str_eq_refl id) refl
turns_of-snoc id (r ∷ rows) row h = elim (Bool-cases (str_eq r.match_id id)) [
  | inl e ↦ simp e (ap (r ∷◌) (turns_of-snoc id rows row h))
  | inr e ↦ simp e (turns_of-snoc id rows row h)
]

text_of :
    {P : Type 0} (o : Option Str)
    → P
    → Yields (λ text. (o ≡ some text) × P) (or_fail encode_failed o)
text_of none p = tt
text_of (some text) p = (refl, p)

find-front :
    (id : Str) (replay : MatchReplayWrite) (text : Str) (now : Time) (rows : List ReplayRow)
    → find_replay id (replay_row id replay text now ∷ rows) ≡ some (replay_row id replay text now)
unfolding find_replay replay_row
find-front id replay text now rows = rw (str_eq_refl id) refl

-- The head of the replay is there, and `rows` are its turns so far.
abbrev HasTurns :
    {F : Type 0} → Json → Str → MatchReplayWrite → Time → List ReplayTurnRow → Tables F → Type 0
HasTurns json id replay now rows t =
    HeadRow json id replay now t.replays × (turns_of id t.replay_turns ≡ rows)

-- The rows of `turns` have come after `before`.
abbrev Follow :
    {F : Type 0}
    → Json
    → Str
    → MatchReplayWrite
    → Time
    → List ReplayTurnRow
    → List ReplayTurn
    → Tables F
    → Type 0
Follow json id replay now before turns t =
    (rows : List ReplayTurnRow) × TurnRows json id now turns rows
    × HasTurns json id replay now (before ++ rows) t

row_id :
    (id : Str) (now : Time) (turn : ReplayTurn) (text : Str)
    → (turn_row id turn text now).match_id ≡ id
unfolding turn_row
row_id id now turn text = refl

module _ {F : Type 0} (json : Json) (id : Str) (replay : MatchReplayWrite) (now : Time) where
  put_turn-HasTurns :
      (before : List ReplayTurnRow) (turn : ReplayTurn) (text : Str) (t : Tables F)
      → HasTurns json id replay now before t
      → Writes
          (HasTurns json id replay now (before ++ (turn_row id turn text now ∷ [])))
          (put_turn (turn_row id turn text now) t)
  unfolding put_turn
  put_turn-HasTurns before turn text t (head, e) =
      unless-Writes (HasTurns json id replay now (before ++ (turn_row id turn text now ∷ []))) _ _ (
        head,
        turns_of-snoc id t.replay_turns (turn_row id turn text now) (row_id id now turn text)
            ∙ ap (◌++ (turn_row id turn text now ∷ [])) e,
      )

  insert_turn-Hoare :
      (before : List ReplayTurnRow) (turn : ReplayTurn)
      → Hoare {F = F} (HasTurns json id replay now before) (insert_turn_tx json id now turn) (λ _ t.
        (text : Str) × ((json.inputs_text turn.inputs ≡ some text)
          × HasTurns json id replay now (before ++ (turn_row id turn text now ∷ [])) t))
  unfolding insert_turn_tx
  insert_turn-Hoare before turn =
      >>=-Hoare
        (λ text t.
          (json.inputs_text turn.inputs ≡ some text) × HasTurns json id replay now before t)
        (known-Hoare _ λ t h. text_of _ h)
        λ text. given-Hoare λ e.
          weaken-Hoare (λ t h. h) (λ _ t h. (text, (e, h)))
            (exec-Hoare insert_failed _ (put_turn-HasTurns before turn text))

  insert_turns-Hoare :
      (before : List ReplayTurnRow) (turns : List ReplayTurn)
      → Hoare {F = F}
          (HasTurns json id replay now before)
          (insert_turns_tx json id now turns)
          (λ _. Follow json id replay now before turns)
  unfolding insert_turns_tx
  insert_turns-Hoare before [] =
      pure-Hoare tt λ t (head, e). ([], tt, (head, e ∙ sym (append-nil before)))
  insert_turns-Hoare before (turn ∷ turns) = >>=-Hoare _ (insert_turn-Hoare before turn) λ _.
      some-Hoare λ text. given-Hoare λ e.
        weaken-Hoare (λ t h. h)
          (λ _ t (rows, written, (head, q)). (
            turn_row id turn text now ∷ rows,
            ((text, e, refl), written),
            (head, q ∙ append_assoc before (turn_row id turn text now ∷ []) rows),
          ))
          (insert_turns-Hoare (before ++ (turn_row id turn text now ∷ [])) turns)

  -- The replay is stored for a match that has no turns yet.
  pub insert_replay-Hoare :
      Hoare {F = F}
        (λ t. turns_of id t.replay_turns ≡ [])
        (insert_match_replay_tx json id replay now)
        (λ _. OfReplays (IsStored json id replay now))
  unfolding insert_match_replay_tx put_replay
  insert_replay-Hoare =
      >>=-Hoare
        (λ text t.
          (json.state_text replay.initial_state ≡ some text) × (turns_of id t.replay_turns ≡ []))
        (known-Hoare _ λ t h. text_of _ h)
        λ text. given-Hoare λ e.
          >>=-Hoare (λ _. HasTurns json id replay now [])
            (exec-Hoare insert_failed _ λ t h.
              unless-Writes (HasTurns json id replay now []) _ _
                ((text, e, find-front id replay text now t.replays), h))
            λ _.
              weaken-Hoare (λ t h. h)
                (λ _ t (rows, written, (head, q)).
                  (head, subst (TurnRows json id now replay.turns) (sym q) written))
                (insert_turns-Hoare [] replay.turns)

module _ {F : Type 0} (R : List ReplayRow → List ReplayTurnRow → Type 0) where
  insert_match-Frames : (m : MatchRow) → Frames {F = F} R (insert_match_tx m)
  unfolding insert_match_tx put_match
  insert_match-Frames m = exec-Hoare insert_failed _ λ t h. unless-Writes (OfReplays R) _ _ h

  insert_result-Frames : (row : MatchResultRow F) → Frames R (insert_match_result_tx row)
  unfolding insert_match_result_tx put_result
  insert_result-Frames row = exec-Hoare insert_failed _ λ t h. unless-Writes (OfReplays R) _ _ h

-- No turns are stored for a match.
abbrev pub HasNoTurns : Str → List ReplayRow → List ReplayTurnRow → Type 0
HasNoTurns id heads rows = turns_of id rows ≡ []

module _ {F : Type 0} ⦃fl : Float64 F⦄ (json : Json) (params : FinalizeParams)
    (replay : MatchReplayWrite) (given : params.replay ≡ some replay) where
  given_replay-Hoare :
      (now : Time)
      → Hoare {F = F}
          (OfReplays (HasNoTurns params.match_id))
          (insert_replay_tx json params.match_id now params.replay)
          (λ _. OfReplays (IsStored json params.match_id replay now))
  unfolding insert_replay_tx
  given_replay-Hoare now =
      rw given
        (weaken-Hoare (λ t h. h) (λ _ t h. h) (insert_replay-Hoare json params.match_id replay now))

  store_match-stores :
      (x : Rated F) (scores : F × F) (now : Time)
      → Hoare
          (OfReplays (HasNoTurns params.match_id))
          (store_match json params x scores now)
          (λ _. OfReplays (IsStored json params.match_id replay now))
  unfolding store_match
  store_match-stores x (score1, score2) now =
      let stored = IsStored json params.match_id replay now in
      >>=-Hoare (λ _. OfReplays (HasNoTurns params.match_id)) (insert_match-Frames _ _)
        λ _.
          >>=-Hoare (λ _. OfReplays stored) (given_replay-Hoare now)
            λ _.
              >>=-Hoare (λ _. OfReplays stored) (insert_result-Frames stored _)
                λ _.
                  >>=-Hoare (λ _. OfReplays stored) (insert_result-Frames stored _)
                    λ _.
                      >>=-Hoare (λ _. OfReplays stored) (upsert_rating-Frames stored _)
                        λ _. upsert_rating-Frames stored _

  pub finalize_tx-stores :
      (svc : Service F) (scores : F × F)
      → Hoare
          (OfReplays (HasNoTurns params.match_id))
          (finalize_tx svc json params scores)
          (λ m. OfReplays (IsStored json params.match_id replay m.match_row.created_at))
  unfolding finalize_tx finalized_row
  finalize_tx-stores svc scores =
      >>=-Hoare (λ _. OfReplays (HasNoTurns params.match_id))
        (rate_match-Frames (HasNoTurns params.match_id) svc params scores)
        λ x.
          >>=-Hoare (λ _. OfReplays (HasNoTurns params.match_id)) now_fn-Hoare
            λ now.
              >>=-Hoare (λ _. OfReplays (IsStored json params.match_id replay now))
                (store_match-stores x scores now) λ _. pure-Hoare _ λ t h. h
