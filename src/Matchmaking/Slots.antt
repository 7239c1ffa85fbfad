-- ===== src/Matchmaking/Slots.antt =====
-- internal/matchmaking/service.go: one seat of a match and the inputs that come from it. A session
-- is its player id. `engine` is the computer's fighter (`npc.Engine`), which is never nil, and an
-- error leaves the random numbers as they were.
use terminal_wrestling_leagu.Common.{
  ℕ, ◌+◌, Bool, true, Option, none, some, List, [], ◌∷◌, leb, if◌then◌else◌,
}
use terminal_wrestling_leagu.Common.Int.{ℤ, pos, ltb_ℤ}
use terminal_wrestling_leagu.Common.Text.{Str, is_empty}
use terminal_wrestling_leagu.Combat.Types.{
  Action, action_none, Zone, zone_head, zone_torso, MatchState, TurnInput,
}
use terminal_wrestling_leagu.Combat.Order.{normalize_zone}
use terminal_wrestling_leagu.Combat.Scene.{normalize_action}
use terminal_wrestling_leagu.Engine.Rng.{DeterministicRng}
use terminal_wrestling_leagu.Npc.{Decision, decided, refused}

pub record MatchSlot : Type 0 where
  pub player_id : Str
  pub npc_controlled : Bool
  pub timeout_streak : ℕ
  pub npc_rng : DeterministicRng

pub data TurnInputStatus : Type 0 where
  turn_input_action turn_input_timeout turn_input_disconnect : TurnInputStatus
  turn_input_canceled turn_input_npc : TurnInputStatus

pub record TurnInputResult : Type 0 where
  pub player_id : Str
  pub input : TurnInput
  pub status : TurnInputStatus

-- Why the computer takes a seat over.
pub data Takeover : Type 0 where
  by_timeout by_disconnect : Takeover

abbrev pub Engine : Type 0
Engine = MatchState → Str → DeterministicRng → Decision DeterministicRng

abbrev pub npc_takeover_timeout_streak : ℕ
npc_takeover_timeout_streak = 2

unfoldable pub idle_input : Str → TurnInput
idle_input id = record {
  player_id = id;
  action = action_none;
  target = zone_torso;
  decision_ms = pos 0;
}

-- The zero value of a `TurnInput`.
abbrev pub zero_input : TurnInput
zero_input = record {
  player_id = [];
  action = action_none;
  target = zone_head;
  decision_ms = pos 0;
}

-- The switches on the zone and on the action are those of the resolver.
unfoldable pub normalize_turn_input : TurnInput → Str → TurnInput
normalize_turn_input input id = record {
  player_id = if is_empty input.player_id then id else input.player_id;
  action = normalize_action input.action;
  target = normalize_zone input.target;
  decision_ms = input.decision_ms;
}

unfoldable pub decide_npc_input :
    Engine → MatchState → Str → DeterministicRng → TurnInput × DeterministicRng
decide_npc_input engine state id rng = elim (engine state id rng) [
  | refused e ↦ (idle_input id, rng)
  | decided input rng' ↦ (normalize_turn_input input id, rng')
]

-- What a session's channel, the timer or the context may deliver while a turn waits for its input.
pub data Signal : Type 0 where
  canceled closed expired quit ignored : Signal
  action_command : Action → Zone → ℤ → Signal

-- The loop of the `select`. A session that delivers nothing more runs into the timer.
unfoldable pub wait_for_turn_input : Str → List Signal → TurnInputResult
wait_for_turn_input id [] = record {
  player_id = id;
  input = idle_input id;
  status = turn_input_timeout;
}
wait_for_turn_input id (canceled ∷ signals) = record {
  player_id = id;
  input = zero_input;
  status = turn_input_canceled;
}
wait_for_turn_input id (closed ∷ signals) = record {
  player_id = id;
  input = idle_input id;
  status = turn_input_disconnect;
}
wait_for_turn_input id (quit ∷ signals) = record {
  player_id = id;
  input = idle_input id;
  status = turn_input_disconnect;
}
wait_for_turn_input id (expired ∷ signals) = record {
  player_id = id;
  input = idle_input id;
  status = turn_input_timeout;
}
wait_for_turn_input id (ignored ∷ signals) = wait_for_turn_input id signals
wait_for_turn_input id (action_command action target elapsed ∷ signals) = record {
  player_id = id;
  input = record {
    player_id = id;
    action = action;
    target = target;
    decision_ms = if ltb_ℤ elapsed (pos 0) then pos 0 else elapsed;
  };
  status = turn_input_action;
}

-- The closure `collect`: what a seat puts into the channel, and the seat after it.
unfoldable pub collect : Engine → MatchState → MatchSlot → List Signal → TurnInputResult × MatchSlot
collect engine state slot signals =
    let (input, rng) = decide_npc_input engine state slot.player_id slot.npc_rng in
    if slot.npc_controlled
    then (
      record { player_id = slot.player_id; input = input; status = turn_input_npc },
      record slot { npc_rng = rng },
    )
    else (wait_for_turn_input slot.player_id signals, slot)

-- The computer takes the seat over and decides for this turn.
unfoldable pub take_over : Engine → MatchState → MatchSlot → TurnInput × MatchSlot
take_over engine state slot =
    let (input, rng) = decide_npc_input engine state slot.player_id slot.npc_rng in
    (input, record slot { npc_controlled = true; timeout_streak = 0; npc_rng = rng })

unfoldable pub resolve_timeout :
    Engine → MatchState → MatchSlot → TurnInput → TurnInput × Option Takeover × MatchSlot
resolve_timeout engine state slot input =
    let streak = slot.timeout_streak + 1 in
    let (npc_input, slot') = take_over engine state slot in
    if leb npc_takeover_timeout_streak streak
    then (npc_input, some by_timeout, slot')
    else (input, none, record slot { timeout_streak = streak })

unfoldable pub resolve_turn_input :
    Engine → MatchState → MatchSlot → TurnInputResult → TurnInput × Option Takeover × MatchSlot
resolve_turn_input engine state slot result =
    let input = normalize_turn_input result.input slot.player_id in
    elim result.status [
      | turn_input_npc ↦ (input, none, record slot { npc_controlled = true; timeout_streak = 0 })
      | turn_input_action ↦ (input, none, record slot { timeout_streak = 0 })
      | turn_input_timeout ↦ resolve_timeout engine state slot input
      | turn_input_disconnect ↦
          let (npc_input, slot') = take_over engine state slot in
          (npc_input, some by_disconnect, slot')
      | turn_input_canceled ↦ (idle_input slot.player_id, none, slot)
    ]
