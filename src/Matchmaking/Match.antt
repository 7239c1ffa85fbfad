-- ===== src/Matchmaking/Match.antt =====
-- internal/matchmaking/service.go: `runMatch`, from the two fighters to the outcome.
-- What the clock, the context and the channels do in turn `t` is `env t`; frames, telemetry rows and
-- the database are left out.
pub mod Rounds
pub mod Opening
pub mod Record
pub mod Alive
pub mod Finish
pub mod Practice
pub mod Drill
use terminal_wrestling_leagu.Common.{
  ℕ, zero, suc, ◌+◌, Bool, true, false, ◌&&◌, not, Option, none, some, List, [], ◌∷◌, ◌++◌,
  if◌then◌else◌,
}
use terminal_wrestling_leagu.Common.Int.{ℤ, pos, ltb_ℤ}
use terminal_wrestling_leagu.Common.Text.{Str, bytes, str_eq, is_empty}
use terminal_wrestling_leagu.Combat.Types.{
  MatchState, MatchOutcome, TurnInput, TurnChecksum, TurnResult, Event, EventType,
  event_status_applied, State, state_submission_attempt, CombatError, Result, ok, err, ◌>>=◌,
  new_fighter, new_match_state, archetype_technician,
}
use terminal_wrestling_leagu.Combat.Scene.{is_submission_attempt}
use terminal_wrestling_leagu.Combat.Order.{canonicalize_inputs}
use terminal_wrestling_leagu.Engine.Rng.{new_deterministic_rng}
use terminal_wrestling_leagu.Engine.Simulator.{
  Resolver, CombatSimulator, new_combat_simulator, step,
}
use terminal_wrestling_leagu.Matchmaking.Slots.{MatchSlot, Engine}
use terminal_wrestling_leagu.Matchmaking.Collect.{Seats, TurnSignals, collect_turn_inputs}
use terminal_wrestling_leagu.Matchmaking.Seeds.{
  pick_archetype, seed_with_salt, npc_seed_salt_p1, npc_seed_salt_p2,
}

pub record ReplayTurn : Type 0 where
  pub turn : ℕ
  pub relative_ms : ℤ
  pub inputs : List TurnInput
  pub checksums : TurnChecksum

pub record TurnEnv : Type 0 where
  pub canceled : Bool
  pub signals : TurnSignals
  pub elapsed_ms : ℤ
  pub shown : Bool

-- What the loop carries.
pub record Table : Type 0 where
  pub sim : CombatSimulator
  pub seats : Seats
  pub replay_turns : List ReplayTurn
  pub stun_events : ℕ
  pub submission_attempts : ℕ

-- Why a match is left without a result.
pub data Stop : Type 0 where
  context_canceled no_inputs : Stop
  invalid_inputs resolution_error : CombatError → Stop

pub data Round : Type 0 where
  halted : Stop → Round
  played : Table → Round

abbrev is_status : EventType → Bool
is_status event_status_applied = true
is_status _ = false

unfoldable pub count_stuns : List Event → ℕ
count_stuns [] = 0
count_stuns (ev ∷ evs) =
    let rest = count_stuns evs in
    if is_status ev.kind && str_eq ev.detail (bytes "stunned") then rest + 1 else rest

unfoldable pub relative_time : ℤ → ℤ
relative_time ms = if ltb_ℤ ms (pos 0) then pos 0 else ms

unfoldable pub record_turn : TurnEnv → List TurnInput → TurnResult → CombatSimulator → Table → Table
record_turn e inputs result sim tb = record tb {
  sim = sim;
  replay_turns =
      tb.replay_turns
      ++ (record {
        turn = result.next.turn;
        relative_ms = relative_time e.elapsed_ms;
        inputs = inputs;
        checksums = result.checksums;
      }
          ∷ []);
  stun_events = tb.stun_events + count_stuns result.events;
  submission_attempts =
      if not (is_submission_attempt tb.sim.state.combat_state)
        && is_submission_attempt result.next.combat_state
      then tb.submission_attempts + 1
      else tb.submission_attempts;
}

unfoldable pub play_canonical : Resolver → TurnEnv → Table → List TurnInput → Round
play_canonical resolver e tb inputs = elim (step resolver tb.sim inputs) [
  | err reason ↦ halted (resolution_error reason)
  | ok (result, sim) ↦
      if e.shown then played (record_turn e inputs result sim tb) else halted context_canceled
]

unfoldable pub play_inputs : Resolver → TurnEnv → Table → List TurnInput → Round
play_inputs resolver e tb inputs = elim (canonicalize_inputs tb.sim.state inputs) [
  | err reason ↦ halted (invalid_inputs reason)
  | ok canonical ↦ play_canonical resolver e tb canonical
]

unfoldable pub play_round : Resolver → Engine → TurnEnv → Table → Round
play_round resolver engine e tb =
    elim (collect_turn_inputs engine tb.sim.state tb.seats e.signals) [
      | none ↦ halted no_inputs
      | some (inputs, seats) ↦ play_inputs resolver e (record tb { seats = seats }) inputs
    ]

pub data Run : Type 0 where
  stopped : Stop → Run
  completed : Table → Run

-- The loop from turn `turn` on, with `n` turns left of `MaxTurns`.
unfoldable pub run_turns : Resolver → Engine → (ℕ → TurnEnv) → ℕ → ℕ → Table → Run
run_turns resolver engine env zero turn tb = completed tb
run_turns resolver engine env (suc n) turn tb =
    let goes_on : Run = elim (play_round resolver engine (env turn) tb) [
      | halted reason ↦ stopped reason
      | played tb' ↦ run_turns resolver engine env n (turn + 1) tb'
    ] in
    if (env turn).canceled
    then stopped context_canceled
    else if tb.sim.state.outcome.finished
    then completed tb
    else goes_on

pub data MatchResultType : Type 0 where
  match_result_ko match_result_submission match_result_abandon match_result_draw : MatchResultType

unfoldable pub map_method : Str → Str → MatchResultType × Option Str
map_method method winner =
    if str_eq method (bytes "KO")
    then (match_result_ko, some winner)
    else if str_eq method (bytes "ko")
    then (match_result_ko, some winner)
    else if str_eq method (bytes "Submission")
    then (match_result_submission, some winner)
    else if str_eq method (bytes "submission")
    then (match_result_submission, some winner)
    else if str_eq method (bytes "abandon")
    then (match_result_abandon, some winner)
    else if str_eq method (bytes "Abandon")
    then (match_result_abandon, some winner)
    else if is_empty winner
    then (match_result_draw, none)
    else (match_result_ko, some winner)

unfoldable pub map_result : MatchOutcome → MatchResultType × Option Str
map_result outcome =
    if outcome.finished
    then map_method outcome.method outcome.winner_id
    else (match_result_draw, none)

-- The players, the seed and the limit of a match.
pub record MatchSetup : Type 0 where
  pub id1 : Str
  pub id2 : Str
  pub seed : ℕ
  pub max_turns : ℕ

-- `storage.FinalizeMatchParams`, without the times.
pub record FinalizeMatchParams : Type 0 where
  pub player1_id : Str
  pub player2_id : Str
  pub winner_id : Option Str
  pub result_type : MatchResultType
  pub seed : ℕ
  pub initial_state : MatchState
  pub turns : List ReplayTurn

-- The fighters of a match of two players.
unfoldable pub initial_match : MatchSetup → Result MatchState
initial_match setup = new_fighter setup.id1 (pick_archetype setup.id1 0) >>= λ fighter1.
    new_fighter setup.id2 (pick_archetype setup.id2 1) >>= λ fighter2.
    ok (new_match_state fighter1 fighter2)

-- The simulator and the seats before the first turn; the computer may hold the second seat.
unfoldable pub open_table : MatchSetup → Bool → MatchState → Table
open_table setup npc2 initial = record {
  sim = new_combat_simulator initial setup.seed;
  seats = record {
    seat1 = record {
      player_id = setup.id1;
      npc_controlled = false;
      timeout_streak = 0;
      npc_rng = new_deterministic_rng (seed_with_salt setup.seed npc_seed_salt_p1);
    };
    seat2 = record {
      player_id = setup.id2;
      npc_controlled = npc2;
      timeout_streak = 0;
      npc_rng = new_deterministic_rng (seed_with_salt setup.seed npc_seed_salt_p2);
    };
  };
  replay_turns = [];
  stun_events = 0;
  submission_attempts = 0;
}

-- The parameters that are handed to the finalizer.
unfoldable pub finalize_params : MatchSetup → MatchState → Table → FinalizeMatchParams
finalize_params setup initial tb =
    let (result_type, winner) = map_result tb.sim.state.outcome in
    record {
      player1_id = setup.id1;
      player2_id = setup.id2;
      winner_id = if tb.sim.state.outcome.finished then winner else none;
      result_type = if tb.sim.state.outcome.finished then result_type else match_result_draw;
      seed = setup.seed;
      initial_state = initial;
      turns = tb.replay_turns;
    }

pub data MatchRun : Type 0 where
  not_started : CombatError → MatchRun
  left : Stop → MatchRun
  finalized : FinalizeMatchParams → MatchRun

unfoldable pub finish_match : MatchSetup → MatchState → Run → MatchRun
finish_match setup initial (stopped reason) = left reason
finish_match setup initial (completed tb) = finalized (finalize_params setup initial tb)

unfoldable pub run_match : Resolver → Engine → (ℕ → TurnEnv) → MatchSetup → MatchRun
run_match resolver engine env setup = elim (initial_match setup) [
  | err reason ↦ not_started reason
  | ok initial ↦
      finish_match setup initial
        (run_turns resolver engine env setup.max_turns 0 (open_table setup false initial))
]
