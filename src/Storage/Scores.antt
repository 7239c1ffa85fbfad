-- ===== src/Storage/Scores.antt =====
-- internal/storage/repositories.go with internal/matchmaking/service.go: what `runMatch` hands over,
-- `FinalizeMatch` accepts.
use terminal_wrestling_leagu.Common.{
  ℕ, ◌≡◌, refl, subst, ◌∙◌, ◌⊎◌, inl, inr, true, false, none, some, if◌then◌else◌, ltb, ◌==◌,
}
use terminal_wrestling_leagu.Common.Answer.{done}
use terminal_wrestling_leagu.Common.Float64.{Float64}
use terminal_wrestling_leagu.Common.Text.{Str, str_eq, str_eq_refl, str_eq_comm, is_empty}
use terminal_wrestling_leagu.Combat.Types.{MatchState}
use terminal_wrestling_leagu.Engine.Simulator.{standard_resolver}
use terminal_wrestling_leagu.Matchmaking.Match.{
  MatchSetup, TurnEnv, FinalizeMatchParams, MatchResultType, match_result_ko,
  match_result_submission, match_result_abandon, match_result_draw, MatchRun, Run, stopped,
  completed, finalized, finish_match, finalize_params, run_match,
}
use terminal_wrestling_leagu.Matchmaking.Match.Opening.{initial_match-Opening}
use terminal_wrestling_leagu.Matchmaking.Match.Finish.{is_draw, run_match-Verdict}
use terminal_wrestling_leagu.Matchmaking.Slots.{Engine}
use terminal_wrestling_leagu.Ranking.{score_loss, score_draw, score_win}
use terminal_wrestling_leagu.Storage.{Time}
use terminal_wrestling_leagu.Storage.Matches.{
  FinalizeParams, accept_params, scores_for_result, winner_scores, draw_scores,
}

-- The call of the finalizer.
unfoldable pub finalize_call : Str → Time → Time → FinalizeMatchParams → FinalizeParams
finalize_call match_id started ended p = record {
  match_id = match_id;
  player1_id = p.player1_id;
  player2_id = p.player2_id;
  winner_id = p.winner_id;
  result_type = p.result_type;
  started_at = started;
  ended_at = ended;
  replay = some (record { seed = p.seed; initial_state = p.initial_state; turns = p.turns });
}

-- The scores that a result deserves.
abbrev pub Deserved : {F : Type 0} ⦃fl : Float64 F⦄ → FinalizeParams → F × F → Type 0
Deserved {F} params scores =
    ((params.winner_id ≡ none) × (scores ≡ (score_draw, score_draw)))
    ⊎ (((params.winner_id ≡ some params.player1_id) × (scores ≡ (score_win, score_loss)))
        ⊎ ((params.winner_id ≡ some params.player2_id) × (scores ≡ (score_loss, score_win))))

-- The players of a result are those of the match.
abbrev OfSetup : MatchSetup → MatchRun → Type 0
OfSetup setup (finalized p) = (p.player1_id ≡ setup.id1) × (p.player2_id ≡ setup.id2)
OfSetup setup _ = Unit

finish-OfSetup :
    (setup : MatchSetup) (initial : MatchState) (run : Run)
    → OfSetup setup (finish_match setup initial run)
unfolding finish_match finalize_params
finish-OfSetup setup initial (stopped reason) = tt
finish-OfSetup setup initial (completed tb) = (refl, refl)

match-OfSetup :
    (engine : Engine) (env : ℕ → TurnEnv) (setup : MatchSetup)
    → OfSetup setup (run_match standard_resolver engine env setup)
unfolding run_match
match-OfSetup engine env setup =
    let (initial, e, o) = initial_match-Opening setup in
    rw (e, OfSetup) (finish-OfSetup setup initial _)

module _ {F : Type 0} ⦃fl : Float64 F⦄ where
  -- The switch on the result tells draws from the rest.
  by_result :
      (params : FinalizeParams)
      → scores_for_result {F = F} params ≡ (
          if is_draw params.result_type
          then draw_scores params.winner_id
          else winner_scores params.player1_id params.player2_id params.winner_id)
  unfolding scores_for_result
  by_result params = split params.result_type _ _
    where
      split :
          {A : Type 0} (t : MatchResultType) (x y : A)
          → (elim t as (λ _. A) [ match_result_draw ↦ x | _ ↦ y ]) ≡ (if is_draw t then x else y)
      split match_result_ko x y = refl
      split match_result_submission x y = refl
      split match_result_abandon x y = refl
      split match_result_draw x y = refl

  first_wins : (p1 p2 : Str) → winner_scores {F = F} p1 p2 (some p1) ≡ done (score_win, score_loss)
  unfolding winner_scores
  first_wins p1 p2 = simp (str_eq_refl p1) refl

  second_wins :
      (p1 p2 : Str)
      → str_eq p1 p2 ≡ false
      → winner_scores {F = F} p1 p2 (some p2) ≡ done (score_loss, score_win)
  unfolding winner_scores
  second_wins p1 p2 h = simp (str_eq_comm p2 p1, h, str_eq_refl p2) refl

  drawn : draw_scores {F = F} none ≡ done (score_draw, score_draw)
  unfolding draw_scores
  drawn = refl

  -- A verdict deserves scores.
  scores-Deserved :
      (params : FinalizeParams)
      → str_eq params.player1_id params.player2_id ≡ false
      → ((is_draw params.result_type ≡ true) × (params.winner_id ≡ none))
        ⊎ ((is_draw params.result_type ≡ false)
            × ((params.winner_id ≡ some params.player1_id)
                ⊎ (params.winner_id ≡ some params.player2_id)))
      → (scores : F × F) × (scores_for_result params ≡ done scores) × Deserved params scores
  scores-Deserved params h (inl (draw, w)) =
      (_, (by_result params ∙ simp (draw, w) drawn), inl (w, refl))
  scores-Deserved params h (inr (fought, inl w)) =
      (_, (by_result params ∙ simp (fought, w) (first_wins _ _)), inr (inl (w, refl)))
  scores-Deserved params h (inr (fought, inr w)) =
      (_, (by_result params ∙ simp (fought, w) (second_wins _ _ h)), inr (inr (w, refl)))

  -- The tests that come before the scores.
  accept-scores :
      (params : FinalizeParams)
      → is_empty params.player1_id ≡ false
      → is_empty params.player2_id ≡ false
      → str_eq params.player1_id params.player2_id ≡ false
      → (params.started_at == 0) ≡ false
      → (params.ended_at == 0) ≡ false
      → ltb params.ended_at params.started_at ≡ false
      → accept_params {F = F} params ≡ scores_for_result params
  unfolding accept_params
  accept-scores params h1 h2 differ s0 e0 order = simp (h1, h2, differ, s0, e0, order) refl

  -- A match of two different players with ids that ran to its result, at times that are set and in
  -- order: `FinalizeMatch` accepts what is handed over, with half a point for each player if there is
  -- no winner, and with a point for the winner and none for the other if there is one.
  pub run_match-accepted :
      (engine : Engine) (env : ℕ → TurnEnv) (setup : MatchSetup) (p : FinalizeMatchParams)
      (match_id : Str) (started ended : Time)
      → is_empty setup.id1 ≡ false
      → is_empty setup.id2 ≡ false
      → str_eq setup.id1 setup.id2 ≡ false
      → (started == 0) ≡ false
      → (ended == 0) ≡ false
      → ltb ended started ≡ false
      → run_match standard_resolver engine env setup ≡ finalized p
      → (scores : F × F) × (accept_params (finalize_call match_id started ended p) ≡ done scores)
        × Deserved (finalize_call match_id started ended p) scores
  unfolding finalize_call
  run_match-accepted engine env setup p match_id started ended h1 h2 differ s0 e0 order ends =
      let (i1, i2) = subst (OfSetup setup) ends (match-OfSetup engine env setup) in
      let verdict = run_match-Verdict engine env setup p h1 h2 ends in
      let (scores, e, deserved) =
        scores-Deserved (finalize_call match_id started ended p) (rw (i1, i2) differ)
          verdict.players in
      let accepted =
        accept-scores (finalize_call match_id started ended p) (rw i1 h1) (rw i2 h2)
          (rw (i1, i2) differ) s0 e0 order in
      (scores, accepted ∙ e, deserved)
