-- ===== src/Tests/Tutorial.antt =====
-- The tutorial of one player.
use terminal_wrestling_leagu.Common.{◌≡◌, refl, ℕ, true, false, [], ◌∷◌}
use terminal_wrestling_leagu.Engine.Simulator.{standard_resolver}
use terminal_wrestling_leagu.Matchmaking.Tutorial.{
  TutorialEnv, TutorialResult, run_tutorial, tutorial_run,
}
use terminal_wrestling_leagu.Matchmaking.Lesson.{run_tutorial_finishes}
use terminal_wrestling_leagu.Common.Int.{pos}
use terminal_wrestling_leagu.Combat.Types.{action_strike, zone_head}
use terminal_wrestling_leagu.Engine.Rng.{deterministic}
use terminal_wrestling_leagu.Npc.{decide}
use terminal_wrestling_leagu.Matchmaking.Slots.{action_command}
use terminal_wrestling_leagu.Matchmaking.Match.{TurnEnv}
use terminal_wrestling_leagu.Matchmaking.Match.Practice.{PracticeResult, practiced, run_npc_match}
use terminal_wrestling_leagu.Matchmaking.Match.Drill.{run_npc_match_finishes}

abbrev quiet : ℕ → TutorialEnv
quiet = λ turn. record { stopped = false; shown = true }

run_tutorial_finishes_example :
    (r : TutorialResult) × (run_tutorial standard_resolver quiet (49 ∷ []) (97 ∷ [])
      ≡ tutorial_run r)
run_tutorial_finishes_example =
    run_tutorial_finishes quiet (49 ∷ []) (97 ∷ []) refl (λ t. record { stays = refl; seen = refl })

abbrev calm_turn : ℕ → TurnEnv
calm_turn = λ turn. record {
  canceled = false;
  signals = record {
    signals1 = action_command action_strike zone_head (pos 300) ∷ [];
    signals2 = [];
    second_first = true;
  };
  elapsed_ms = pos 900;
  shown = true;
}

run_npc_match_finishes_example :
    (r : PracticeResult) × (run_npc_match standard_resolver
        (decide deterministic)
        calm_turn
        (49 ∷ [])
        (97 ∷ [])
        30
      ≡ practiced r)
run_npc_match_finishes_example =
    run_npc_match_finishes calm_turn (49 ∷ []) (97 ∷ []) 30 refl
      (λ t. record { stays = refl; calm1 = (tt, tt); calm2 = tt; shown = refl })
