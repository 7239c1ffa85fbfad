-- ===== src/Matchmaking/Takeover.antt =====
-- When the computer takes a seat over.
use terminal_wrestling_leagu.Common.{◌≤◌, ◌≡◌, arith, Bool, true, false, Option, none, is_some}
use terminal_wrestling_leagu.Combat.Types.{MatchState, TurnInput}
use terminal_wrestling_leagu.Matchmaking.Slots.{
  MatchSlot, TurnInputResult, TurnInputStatus, turn_input_action, turn_input_timeout,
  turn_input_disconnect, turn_input_canceled, turn_input_npc, Takeover, Engine, take_over,
  resolve_timeout, resolve_turn_input,
}

abbrev pub is_disconnect : TurnInputStatus → Bool
is_disconnect turn_input_disconnect = true
is_disconnect _ = false

abbrev pub is_timeout : TurnInputStatus → Bool
is_timeout turn_input_timeout = true
is_timeout _ = false

-- One turn of a seat: who holds it, and how long the timeouts have run.
pub record SeatTurn (slot : MatchSlot) (status : TurnInputStatus)
    (out : TurnInput × Option Takeover × MatchSlot) : Type 0 where
  pub same_id : out.2.player_id ≡ slot.player_id
  pub bounded : slot.timeout_streak ≤ 1 → out.2.timeout_streak ≤ 1
  pub permanent : slot.npc_controlled ≡ true → out.2.npc_controlled ≡ true
  pub announced : is_some out.1 ≡ true → (out.2.npc_controlled ≡ true) × (out.2.timeout_streak ≡ 0)
  pub left_seat : is_disconnect status ≡ true → is_some out.1 ≡ true
  pub first_timeout :
      is_timeout status ≡ true
      → slot.timeout_streak ≡ 0
      → (out.1 ≡ none) × (out.2.timeout_streak ≡ 1) × (out.2.npc_controlled ≡ slot.npc_controlled)
  pub second_timeout : is_timeout status ≡ true → slot.timeout_streak ≡ 1 → is_some out.1 ≡ true

module _ (engine : Engine) (state : MatchState) (slot : MatchSlot) where
  resolve_timeout-SeatTurn :
      (input : TurnInput)
      → SeatTurn slot turn_input_timeout (resolve_timeout engine state slot input)
  unfolding resolve_timeout take_over
  resolve_timeout-SeatTurn input = ground arith

  -- Whatever a seat delivers in a turn, it keeps its player, and a seat that the computer holds stays
  -- the computer's. A run of timeouts is never longer than one: the first leaves the seat as it was and
  -- is counted, and the second hands the seat over, as a disconnect does. A takeover that is announced
  -- has the computer in the seat and the count at zero.
  pub resolve_turn_input-SeatTurn :
      (result : TurnInputResult)
      → SeatTurn slot result.status (resolve_turn_input engine state slot result)
  unfolding resolve_turn_input take_over
  resolve_turn_input-SeatTurn result =
      elim (result.status)
        as (λ st.
          SeatTurn slot st (resolve_turn_input engine state slot (record result { status = st }))) [
            | turn_input_timeout ↦ resolve_timeout-SeatTurn _
            | turn_input_action ↦ ground arith
            | turn_input_npc ↦ ground arith
            | turn_input_disconnect ↦ ground arith
            | turn_input_canceled ↦ ground arith
          ]
