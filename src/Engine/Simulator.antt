-- ===== src/Engine/Simulator.antt =====
-- internal/engine/simulator.go: a match, its resolver and its random numbers, stepped turn by turn.
-- The resolver is an argument, as `combat.Resolver` is: a result, and the random numbers after it. A
-- resolver that fails has drawn none, as the standard one.
use terminal_wrestling_leagu.Common.{ℕ, List}
use terminal_wrestling_leagu.Combat.Types.{MatchState, TurnInput, TurnResult, Result, ok, err}
use terminal_wrestling_leagu.Combat.Turn.{resolve_turn}
use terminal_wrestling_leagu.Engine.Rng.{
  DeterministicRng, new_deterministic_rng, deterministic, snapshot,
}

abbrev pub Resolver : Type 0
Resolver = MatchState → List TurnInput → DeterministicRng → Result (TurnResult × DeterministicRng)

unfoldable pub standard_resolver : Resolver
standard_resolver = resolve_turn deterministic

pub record CombatSimulator : Type 0 where
  pub state : MatchState
  pub rng : DeterministicRng

unfoldable pub new_combat_simulator : MatchState → ℕ → CombatSimulator
new_combat_simulator initial seed =
    let rng = new_deterministic_rng seed in
    record { state = record initial { rng_state = snapshot rng }; rng = rng }

-- On an error the simulator is as it was.
unfoldable pub step :
    Resolver → CombatSimulator → List TurnInput → Result (TurnResult × CombatSimulator)
step resolver s inputs = elim (resolver s.state inputs s.rng) [
  | err reason ↦ err reason
  | ok (result, rng) ↦
      let next = record (result.next) { rng_state = snapshot rng } in
      ok (record result { next = next }, record { state = next; rng = rng })
]
