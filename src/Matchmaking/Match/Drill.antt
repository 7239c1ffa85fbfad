-- ===== src/Matchmaking/Match/Drill.antt =====
-- internal/matchmaking/service.go: a practice match comes to its end.
use terminal_wrestling_leagu.Common.{ℕ, ◌≡◌, refl, true, false, some}
use terminal_wrestling_leagu.Common.Text.{Str, bytes, str_eq, is_empty}
use terminal_wrestling_leagu.Combat.Types.{
  MatchState, ok, new_match_state, archetype_stats, archetype_technician,
}
use terminal_wrestling_leagu.Engine.Rng.{deterministic}
use terminal_wrestling_leagu.Engine.Simulator.{standard_resolver, new_combat_simulator}
use terminal_wrestling_leagu.Npc.{decide}
use terminal_wrestling_leagu.Npc.Named.{decide-IsNamed}
use terminal_wrestling_leagu.Matchmaking.Lesson.{longer_ne}
use terminal_wrestling_leagu.Matchmaking.Match.{
  TurnEnv, Table, completed, run_turns, open_table, map_result,
}
use terminal_wrestling_leagu.Matchmaking.Match.Alive.{
  IsCalmTurn, Seated, run_turns-Never, completed_of,
}
use terminal_wrestling_leagu.Matchmaking.Match.Opening.{picked_fighter, fighter_of_stats}
use terminal_wrestling_leagu.Matchmaking.Match.Practice.{
  PracticeResult, practiced, practice_id, practice_opening, practice_setup, practice_result,
  end_practice, run_npc_match,
}

known :
    archetype_stats archetype_technician
    ≡ some (record { power = 5; technique = 9; agility = 5; endurance = 6 })
unfolding archetype_stats
known = refl

-- The match of the player and the coach before its first turn.
opening-Seated :
    (id stamp : Str) (max_turns : ℕ)
    → (s : MatchState) × (practice_opening id ≡ ok s)
      × Seated
          (practice_setup id stamp max_turns)
          (open_table (practice_setup id stamp max_turns) true s)
unfolding practice_opening practice_setup open_table new_combat_simulator new_match_state
opening-Seated id stamp max_turns =
    let (player, e1, h1) = picked_fighter id 0 in
    let (coach, e2, h2) = fighter_of_stats (practice_id id) archetype_technician _ known in
    (
      new_match_state player coach,
      rw e1 (rw e2 refl),
      record { first = h1.same_id; second = h2.same_id; seat1 = refl; seat2 = refl },
    )

coach_apart :
    (id stamp : Str) (max_turns : ℕ)
    → (str_eq (practice_setup id stamp max_turns).id1 (practice_setup id stamp max_turns).id2
        ≡ false)
      × (is_empty (practice_setup id stamp max_turns).id2 ≡ false)
      × ((practice_setup id stamp max_turns).id1 ≡ id)
unfolding practice_setup bytes
coach_apart id stamp max_turns = (longer_ne (bytes "pc_practice_") id 110, refl, refl)

ended_at :
    (env : ℕ → TurnEnv) (id stamp : Str) (max_turns : ℕ) (s : MatchState) (last : Table)
    → practice_opening id ≡ ok s
    → run_turns standard_resolver
        (decide deterministic)
        env
        max_turns
        0
        (open_table (practice_setup id stamp max_turns) true s)
      ≡ completed last
    → run_npc_match standard_resolver (decide deterministic) env stamp id max_turns
      ≡ practiced (practice_result id (map_result last.sim.state.outcome))
unfolding run_npc_match end_practice
ended_at env id stamp max_turns s last e runs = rw (e, run_npc_match) (simp runs refl)

-- A practice match of a player with an id, in which the context is never canceled, is played to its
-- result, whatever the player sends or leaves out and however the random numbers fall.
pub run_npc_match_finishes :
    (env : ℕ → TurnEnv) (stamp id : Str) (max_turns : ℕ)
    → is_empty id ≡ false
    → ((t : ℕ) → IsCalmTurn (env t))
    → (r : PracticeResult) × (run_npc_match standard_resolver
          (decide deterministic)
          env
          stamp
          id
          max_turns
        ≡ practiced r)
run_npc_match_finishes env stamp id max_turns p calm =
    let setup = practice_setup id stamp max_turns in
    let (s, e, seated) = opening-Seated id stamp max_turns in
    let (ne, p2, same) = coach_apart id stamp max_turns in
    let (last, runs) =
      completed_of
        (run_turns standard_resolver (decide deterministic) env max_turns 0
          (open_table setup true s))
        (run_turns-Never (decide deterministic) (decide-IsNamed deterministic) setup (rw same p) p2
          ne env max_turns 0 (open_table setup true s) calm seated) in
    (_, ended_at env id stamp max_turns s last e runs)
