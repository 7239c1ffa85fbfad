-- ===== src/Matchmaking/Match/Finish.antt =====
-- How a match of two players ends: the result and the winner that are stored.
use terminal_wrestling_leagu.Common.{
  ℕ, ◌≡◌, refl, ◌∙◌, subst, ◌⊎◌, inl, inr, Bool, true, false, Option, some, none, Bool-cases,
  if_keeps,
}
use terminal_wrestling_leagu.Common.Text.{Str, str_eq, bytes, is_empty}
use terminal_wrestling_leagu.Combat.Types.{MatchState}
use terminal_wrestling_leagu.Combat.Bounds.{MatchFit}
use terminal_wrestling_leagu.Combat.Ending.{Standing}
use terminal_wrestling_leagu.Engine.Simulator.{standard_resolver, new_combat_simulator}
use terminal_wrestling_leagu.Engine.Stepping.{step-NextTurn, step-Standing, step-MatchFit}
use terminal_wrestling_leagu.Matchmaking.Slots.{Engine}
use terminal_wrestling_leagu.Matchmaking.Match.{
  TurnEnv, Table, Run, stopped, completed, run_turns, MatchResultType, match_result_draw,
  match_result_ko, match_result_submission, match_result_abandon, map_method, map_result,
  MatchSetup, open_table, finalize_params, FinalizeMatchParams, finalized, finish_match, run_match,
}
use terminal_wrestling_leagu.Matchmaking.Match.Rounds.{OnRun, Played, run_turns_keeps}
use terminal_wrestling_leagu.Matchmaking.Match.Opening.{initial_match-Opening}
use terminal_wrestling_leagu.Matchmaking.Match.Record.{
  Anything, OnRound-both, round-Played, OnFinalized,
}

-- What every table of the match satisfies.
pub record Sound (setup : MatchSetup) (s : MatchState) : Type 0 where
  pub first : s.p1.player_id ≡ setup.id1
  pub second : s.p2.player_id ≡ setup.id2
  pub fit : MatchFit s
  pub standing : Standing s

pub Played-Sound :
    (setup : MatchSetup) (tb tb' : Table)
    → Played standard_resolver tb tb'
    → Sound setup tb.sim.state
    → Sound setup tb'.sim.state
Played-Sound setup tb tb' h s =
    let n = step-NextTurn tb.sim tb'.sim h.canonical h.result h.stepped in
    record {
      first = n.same1.0 ∙ s.first;
      second = n.same2.0 ∙ s.second;
      fit = step-MatchFit tb.sim tb'.sim h.canonical h.result s.fit h.stepped;
      standing = step-Standing tb.sim tb'.sim h.canonical h.result s.standing h.stepped;
    }

run_turns-Sound :
    (setup : MatchSetup) (engine : Engine) (env : ℕ → TurnEnv) (n turn : ℕ) (tb : Table)
    → OnRun Anything
        (λ last. Sound setup tb.sim.state → Sound setup last.sim.state)
        (run_turns standard_resolver engine env n turn tb)
run_turns-Sound setup engine env n turn tb =
    run_turns_keeps standard_resolver engine Anything (λ _. Unit)
      (λ tb last. Sound setup tb.sim.state → Sound setup last.sim.state) env n turn tb (λ _ _. tt)
      (λ tb s. s) (λ tb tb' last h rest s. rest (Played-Sound setup tb tb' h s))
      (λ t tb _ _.
        OnRound-both (Played standard_resolver tb) _
          (round-Played standard_resolver engine (env t) tb))
      tt

abbrev pub is_draw : MatchResultType → Bool
is_draw match_result_draw = true
is_draw _ = false

-- A draw without a winner, or a victory of the player `w`.
record Won (w : Str) (r : MatchResultType × Option Str) : Type 0 where
  pub decided : is_draw r.0 ≡ false
  pub winner : r.1 ≡ some w

map_method_all :
    (P : MatchResultType × Option Str → Type 0) (method w : Str)
    → is_empty w ≡ false
    → ((t : MatchResultType) → is_draw t ≡ false → P (t, some w))
    → P (map_method method w)
unfolding map_method
map_method_all P method w h won = simp h (
    if_keeps P (str_eq method (bytes "KO")) _ _ (won match_result_ko refl) (
      if_keeps P (str_eq method (bytes "ko")) _ _ (won match_result_ko refl) (
        if_keeps P (str_eq method (bytes "Submission")) _ _ (won match_result_submission refl) (
          if_keeps P (str_eq method (bytes "submission")) _ _ (won match_result_submission refl) (
            if_keeps P (str_eq method (bytes "abandon")) _ _ (won match_result_abandon refl) (
              if_keeps P (str_eq method (bytes "Abandon")) _ _ (won match_result_abandon refl)
                (won match_result_ko refl)))))))

map_method-Won : (method w : Str) → is_empty w ≡ false → Won w (map_method method w)
map_method-Won method w h =
    map_method_all (Won w) method w h (λ t e. record { decided = e; winner = refl })

-- The stored result: a draw without a winner, or a victory of one of the two players.
pub record Verdict (p : FinalizeMatchParams) : Type 0 where
  pub players :
      ((is_draw p.result_type ≡ true) × (p.winner_id ≡ none))
      ⊎ ((is_draw p.result_type ≡ false)
          × ((p.winner_id ≡ some p.player1_id) ⊎ (p.winner_id ≡ some p.player2_id)))

params-Verdict :
    (setup : MatchSetup) (initial : MatchState) (last : Table)
    → is_empty setup.id1 ≡ false
    → is_empty setup.id2 ≡ false
    → Sound setup last.sim.state
    → Verdict (finalize_params setup initial last)
unfolding finalize_params map_result
params-Verdict setup initial last h1 h2 s = elim (Bool-cases last.sim.state.outcome.finished) [
  | inr playing ↦ record { players = simp playing (inl (refl, refl)) }
  | inl over ↦ elim (s.standing.ended over) [
    | inl (w, _) ↦
        let won = map_method-Won last.sim.state.outcome.method setup.id1 h1 in
        record { players = simp (over, w, s.first) (inr (won.decided, inl won.winner)) }
    | inr (w, _) ↦
        let won = map_method-Won last.sim.state.outcome.method setup.id2 h2 in
        record { players = simp (over, w, s.second) (inr (won.decided, inr won.winner)) }
  ]
]

finish-Verdict :
    (setup : MatchSetup) (initial : MatchState) (run : Run)
    → is_empty setup.id1 ≡ false
    → is_empty setup.id2 ≡ false
    → Sound setup initial
    → OnRun Anything
        (λ last.
          Sound setup (open_table setup false initial).sim.state → Sound setup last.sim.state)
        run
    → OnFinalized Verdict (finish_match setup initial run)
unfolding finish_match open_table new_combat_simulator
finish-Verdict setup initial (stopped reason) h1 h2 s h = tt
finish-Verdict setup initial (completed last) h1 h2 s h = params-Verdict setup initial last h1 h2 (
    h (record {
      first = s.first;
      second = s.second;
      fit = s.fit;
      standing = record { playing = s.standing.playing; ended = s.standing.ended };
    }))

match-Verdict :
    (engine : Engine) (env : ℕ → TurnEnv) (setup : MatchSetup)
    → is_empty setup.id1 ≡ false
    → is_empty setup.id2 ≡ false
    → OnFinalized Verdict (run_match standard_resolver engine env setup)
unfolding run_match
match-Verdict engine env setup h1 h2 =
    let (initial, e, o) = initial_match-Opening setup in
    rw (e, OnFinalized)
      (finish-Verdict setup initial _ h1 h2
        (record { first = o.first; second = o.second; fit = o.fit; standing = o.standing })
        (run_turns-Sound setup engine env setup.max_turns 0 (open_table setup false initial)))

-- The result that is stored for a match of two players with ids, whatever they did: either a draw
-- and no winner, or no draw and one of the two players as the winner.
pub run_match-Verdict :
    (engine : Engine) (env : ℕ → TurnEnv) (setup : MatchSetup) (p : FinalizeMatchParams)
    → is_empty setup.id1 ≡ false
    → is_empty setup.id2 ≡ false
    → run_match standard_resolver engine env setup ≡ finalized p
    → Verdict p
run_match-Verdict engine env setup p h1 h2 e =
    subst (OnFinalized Verdict) e (match-Verdict engine env setup h1 h2)
