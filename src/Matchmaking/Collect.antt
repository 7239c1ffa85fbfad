-- ===== src/Matchmaking/Collect.antt =====
-- internal/matchmaking/service.go: the inputs of one turn, collected from both seats. The channel's
-- order of arrival is an argument.
use terminal_wrestling_leagu.Common.{
  Bool, true, false, ◌||◌, Option, none, some, is_some, List, [], ◌∷◌, if◌then◌else◌,
}
use terminal_wrestling_leagu.Common.Text.{Str, str_eq, is_empty}
use terminal_wrestling_leagu.Combat.Types.{MatchState, TurnInput}
use terminal_wrestling_leagu.Combat.Turn.{Slot, slot1, slot2}
use terminal_wrestling_leagu.Matchmaking.Slots.{
  MatchSlot, TurnInputResult, TurnInputStatus, turn_input_canceled, Takeover, Engine, Signal,
  collect, resolve_turn_input,
}

-- The two seats of a match.
pub record Seats : Type 0 where
  pub seat1 : MatchSlot
  pub seat2 : MatchSlot

abbrev pub seat_of : Slot → Seats → MatchSlot
seat_of slot1 seats = seats.seat1
seat_of slot2 seats = seats.seat2

abbrev pub put_seat : Slot → MatchSlot → Seats → Seats
put_seat slot1 seat seats = record seats { seat1 = seat }
put_seat slot2 seat seats = record seats { seat2 = seat }

-- A return of `nil, false` between two calls.
infixl 5 ◌>>=◌
abbrev pub ◌>>=◌ : {T U : Type 0} → Option T → (T → Option U) → Option U
o >>= next = elim o [ none ↦ none | some value ↦ next value ]

unfoldable pub find_slot_by_player_id : Str → Seats → Option Slot
find_slot_by_player_id id seats =
    if str_eq seats.seat1.player_id id
    then some slot1
    else if str_eq seats.seat2.player_id id
    then some slot2
    else none

unfoldable pub find_result : Str → List TurnInputResult → Option TurnInputResult
find_result id [] = none
find_result id (r ∷ rs) = if str_eq r.player_id id then some r else find_result id rs

-- The loop that fills `resultByPlayer`; `none` for an empty or a repeated id.
unfoldable pub index_results :
    List TurnInputResult → List TurnInputResult → Option (List TurnInputResult)
index_results seen [] = some seen
index_results seen (r ∷ rs) =
    let rest = index_results (r ∷ seen) rs in
    if is_empty r.player_id || is_some (find_result r.player_id seen) then none else rest

unfoldable pub order_turn_results_by_slot :
    Seats → List TurnInputResult → Option (TurnInputResult × TurnInputResult)
order_turn_results_by_slot seats results = do
  seen ← index_results [] results
  first ← find_result seats.seat1.player_id seen
  second ← find_result seats.seat2.player_id seen
  some (first, second)

abbrev pub is_canceled : TurnInputStatus → Bool
is_canceled turn_input_canceled = true
is_canceled _ = false

-- One round of the loop over the ordered results.
unfoldable pub resolve_result :
    Engine → MatchState → Seats → TurnInputResult → Option (TurnInput × Option Takeover × Seats)
resolve_result engine state seats result = elim (find_slot_by_player_id result.player_id seats) [
  | none ↦ none
  | some slot ↦
      let (input, takeover, seat) = resolve_turn_input engine state (seat_of slot seats) result in
      some (input, takeover, put_seat slot seat seats)
]

unfoldable pub resolve_results :
    Engine
    → MatchState
    → Seats
    → TurnInputResult × TurnInputResult
    → Option (List TurnInput × Seats)
resolve_results engine state seats (first, second) = do
  (input1, takeover1, seats1) ← resolve_result engine state seats first
  (input2, takeover2, seats2) ← resolve_result engine state seats1 second
  some (input1 ∷ input2 ∷ [], seats2)

-- What the channels deliver in a turn.
pub record TurnSignals : Type 0 where
  pub signals1 : List Signal
  pub signals2 : List Signal
  pub second_first : Bool

unfoldable pub collect_turn_inputs :
    Engine → MatchState → Seats → TurnSignals → Option (List TurnInput × Seats)
collect_turn_inputs engine state seats env =
    let (res1, seat1) = collect engine state seats.seat1 env.signals1 in
    let (res2, seat2) = collect engine state seats.seat2 env.signals2 in
    let seats' : Seats = record { seat1 = seat1; seat2 = seat2 } in
    let arrived = if env.second_first then res2 ∷ res1 ∷ [] else res1 ∷ res2 ∷ [] in
    let resolved : Option (List TurnInput × Seats) =
      elim (order_turn_results_by_slot seats' arrived) [
        | none ↦ none
        | some ordered ↦ resolve_results engine state seats' ordered
      ] in
    if is_canceled res1.status || is_canceled res2.status then none else resolved
