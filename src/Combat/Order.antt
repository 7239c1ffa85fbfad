-- ===== src/Combat/Order.antt =====
-- internal/combat/order.go: one input for each fighter, in the order of the player ids. The map
-- `byPlayer` is the list of inputs seen, and its iteration order does not matter.
use terminal_wrestling_leagu.Common.{
  Bool, true, false, ◌||◌, Option, none, some, is_some, List, [], ◌∷◌, map, if◌then◌else◌,
}
use terminal_wrestling_leagu.Common.Int.{pos}
use terminal_wrestling_leagu.Common.Text.{Str, str_eq, str_lt, is_empty}
use terminal_wrestling_leagu.Combat.Types.{
  action_none, Zone, zone_head, zone_torso, zone_legs, unknown_zone, MatchState, TurnInput, Result,
  ok, err, ◌>>=◌, empty_input_id, duplicate_input, empty_state_id, duplicate_state_id,
  unknown_input_id,
}

unfoldable pub find_input : Str → List TurnInput → Option TurnInput
find_input id [] = none
find_input id (x ∷ seen) = if str_eq x.player_id id then some x else find_input id seen

-- The first loop: `seen` holds the inputs put into the map so far.
unfoldable pub collect_inputs : List TurnInput → List TurnInput → Result (List TurnInput)
collect_inputs seen [] = ok seen
collect_inputs seen (x ∷ inputs) =
    let rest = collect_inputs (x ∷ seen) inputs in
    if is_empty x.player_id
    then err empty_input_id
    else if is_some (find_input x.player_id seen)
    then err duplicate_input
    else rest

unfoldable pub all_known : Str → Str → List TurnInput → Bool
all_known id1 id2 [] = true
all_known id1 id2 (x ∷ seen) =
    if str_eq x.player_id id1 || str_eq x.player_id id2 then all_known id1 id2 seen else false

unfoldable pub default_input : Str → TurnInput
default_input id = record {
  player_id = id;
  action = action_none;
  target = zone_torso;
  decision_ms = pos 0;
}

unfoldable pub normalize_zone : Zone → Zone
normalize_zone zone_head = zone_head
normalize_zone zone_torso = zone_torso
normalize_zone zone_legs = zone_legs
normalize_zone (unknown_zone n) = zone_torso

-- The body of the last loop.
unfoldable pub input_for : List TurnInput → Str → TurnInput
unfolding default_input
input_for seen id =
    let x : TurnInput = elim (find_input id seen) [ none ↦ default_input id | some y ↦ y ] in
    record x { target = normalize_zone x.target }

-- `sort.Strings` on a slice of two.
unfoldable pub sort_pair : Str → Str → List Str
sort_pair id1 id2 = if str_lt id2 id1 then id2 ∷ id1 ∷ [] else id1 ∷ id2 ∷ []

-- What follows the first loop, on the ids of the two fighters.
unfoldable pub order_inputs : Str → Str → List TurnInput → Result (List TurnInput)
order_inputs id1 id2 by_player =
    if is_empty id1 || is_empty id2
    then err empty_state_id
    else if str_eq id1 id2
    then err duplicate_state_id
    else if all_known id1 id2 by_player
    then ok (map (input_for by_player) (sort_pair id1 id2))
    else err unknown_input_id

unfoldable pub canonicalize_inputs : MatchState → List TurnInput → Result (List TurnInput)
canonicalize_inputs state inputs =
    collect_inputs [] inputs >>= order_inputs state.p1.player_id state.p2.player_id
