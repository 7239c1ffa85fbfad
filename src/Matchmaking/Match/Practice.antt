-- ===== src/Matchmaking/Match/Practice.antt =====
-- internal/matchmaking/service.go: `runNPCMatch`, the practice match of a player. Its loop is that of
-- `runMatch`, whose record of the turns nobody reads here. The moment at which it starts is an argument.
use terminal_wrestling_leagu.Common.{ℕ, true, Option, none, some, ◌++◌, if◌then◌else◌}
use terminal_wrestling_leagu.Common.Text.{Str, bytes, str_eq}
use terminal_wrestling_leagu.Combat.Types.{
  MatchState, CombatError, Result, ok, err, ◌>>=◌, new_fighter, new_match_state,
  archetype_technician,
}
use terminal_wrestling_leagu.Engine.Simulator.{Resolver}
use terminal_wrestling_leagu.Matchmaking.Slots.{Engine}
use terminal_wrestling_leagu.Matchmaking.Seeds.{pick_archetype, seed_for_pair, seed_with_salt}
use terminal_wrestling_leagu.Matchmaking.Match.{
  TurnEnv, Stop, Run, stopped, completed, run_turns, MatchSetup, MatchResultType, match_result_draw,
  map_result, open_table,
}

pub data PracticeResult : Type 0 where
  practice_draw practice_victory practice_defeat : PracticeResult

pub data PracticeRun : Type 0 where
  practice_not_started : CombatError → PracticeRun
  practice_left : Stop → PracticeRun
  practiced : PracticeResult → PracticeRun

abbrev pub practice_id : Str → Str
practice_id id = bytes "npc_practice_" ++ id

unfoldable pub practice_opening : Str → Result MatchState
practice_opening id = new_fighter id (pick_archetype id 0) >>= λ player.
    new_fighter (practice_id id) archetype_technician >>= λ coach. ok (new_match_state player coach)

-- The seed and the players of the match.
unfoldable pub practice_setup : Str → Str → ℕ → MatchSetup
practice_setup id stamp max_turns = record {
  id1 = id;
  id2 = practice_id id;
  seed = seed_with_salt (seed_for_pair id (practice_id id) stamp) 0xbadc0de;
  max_turns = max_turns;
}

-- What the player is told at the end.
unfoldable pub practice_result : Str → MatchResultType × Option Str → PracticeResult
practice_result id (result_type, none) = practice_draw
practice_result id (match_result_draw, some winner) = practice_draw
practice_result id (_, some winner) = if str_eq winner id then practice_victory else practice_defeat

unfoldable pub end_practice : Str → Run → PracticeRun
end_practice id (stopped reason) = practice_left reason
end_practice id (completed tb) = practiced (practice_result id (map_result tb.sim.state.outcome))

unfoldable pub run_npc_match : Resolver → Engine → (ℕ → TurnEnv) → Str → Str → ℕ → PracticeRun
run_npc_match resolver engine env stamp id max_turns = elim (practice_opening id) [
  | err reason ↦ practice_not_started reason
  | ok initial ↦ end_practice id (
      run_turns resolver engine env max_turns 0
        (open_table (practice_setup id stamp max_turns) true initial))
]
