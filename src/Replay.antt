-- ===== src/Replay.antt =====
-- internal/replay/replay.go: running a recorded match again.
use terminal_wrestling_leagu.Common.{ℕ, ◌+◌, ◌&&◌, ◌||◌, not, List, [], ◌∷◌, ◌==◌, if◌then◌else◌}
use terminal_wrestling_leagu.Common.Int.{ℤ}
use terminal_wrestling_leagu.Common.Text.{is_empty}
use terminal_wrestling_leagu.Combat.Types.{CombatError, MatchState, TurnInput, TurnResult, ok, err}
use terminal_wrestling_leagu.Engine.Simulator.{
  Resolver, CombatSimulator, new_combat_simulator, step,
}

pub record InputEvent : Type 0 where
  pub turn : ℕ
  pub relative_ms : ℤ
  pub inputs : List TurnInput

-- The archetypes of a record are not read by a replay, and stand in its initial state too.
pub record Record : Type 0 where
  pub seed : ℕ
  pub initial : MatchState
  pub inputs : List InputEvent

pub data ReplayError : Type 0 where
  missing_player_ids : ReplayError
  wrong_turn : ℕ → ℕ → ReplayError
  turn_failed : ℕ → CombatError → ReplayError

pub data Replayed (T : Type 0) : Type 0 where
  done : T → Replayed T
  failed : ReplayError → Replayed T

abbrev pub then_with : {T U : Type 0} → Replayed T → (T → U) → Replayed U
then_with (done value) f = done (f value)
then_with (failed reason) f = failed reason

-- The loop: the results of the turns that are left.
unfoldable pub replay_events :
    Resolver → CombatSimulator → List InputEvent → Replayed (List TurnResult)
replay_events resolver sim [] = done []
replay_events resolver sim (ev ∷ events) =
    let expected = sim.state.turn + 1 in
    let played : Replayed (List TurnResult) = elim (step resolver sim ev.inputs) [
      | err reason ↦ failed (turn_failed expected reason)
      | ok (res, sim') ↦ then_with (replay_events resolver sim' events) (λ rest. res ∷ rest)
    ] in
    if not (ev.turn == 0) && not (ev.turn == expected)
    then failed (wrong_turn ev.turn expected)
    else played

unfoldable pub replay : Resolver → Record → Replayed (List TurnResult)
replay resolver rec =
    let sim = new_combat_simulator rec.initial rec.seed in
    let played = replay_events resolver sim rec.inputs in
    if is_empty rec.initial.p1.player_id || is_empty rec.initial.p2.player_id
    then failed missing_player_ids
    else played
