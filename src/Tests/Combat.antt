-- ===== src/Tests/Combat.antt =====
-- A match of two players, its first turns, and the theorems about the resolver at them.
use terminal_wrestling_leagu.Common.{◌≡◌, refl, arith, true, false, List, [], ◌∷◌}
use terminal_wrestling_leagu.Common.Int.{pos}
use terminal_wrestling_leagu.Common.Text.{str_eq, str_lt}
use terminal_wrestling_leagu.Combat.Types.{
  archetype_balanced, archetype_powerhouse, action_strike, action_grapple, zone_head, zone_torso,
  unknown_zone, state_neutral, state_stunned, FighterState, MatchState, TurnInput, TurnResult, ok,
  no_effects, action_none,
}
use terminal_wrestling_leagu.Combat.Order.{
  find_input, collect_inputs, all_known, normalize_zone, input_for, sort_pair, order_inputs,
  canonicalize_inputs,
}
use terminal_wrestling_leagu.Combat.Turn.{resolve_turn, slot2}
use terminal_wrestling_leagu.Combat.Bounds.{MatchFit, resolve_turn-MatchFit}
use terminal_wrestling_leagu.Combat.Frame.{NextTurn, resolve_turn-NextTurn}
use terminal_wrestling_leagu.Combat.Ending.{Standing, resolve_turn-Standing}
use terminal_wrestling_leagu.Combat.Stun.{stunned_cannot_act}
use terminal_wrestling_leagu.Combat.Total.{resolve_turn_total}
use terminal_wrestling_leagu.Combat.Canonical.{CanonicalPair, canonicalize-CanonicalPair}
use terminal_wrestling_leagu.Combat.Arrival.{canonicalize_arrival}
use terminal_wrestling_leagu.Engine.Rng.{DeterministicRng, deterministic, snapshot}

-- The ids "a" and "b".
abbrev alice : FighterState
alice = record {
  player_id = 97 ∷ [];
  archetype = archetype_powerhouse;
  stats = record { power = 9; technique = 4; agility = 4; endurance = 8 };
  hp = 100;
  stamina = 100;
  momentum = 0;
  state = state_neutral;
  effects = no_effects;
  last_action = action_none;
  last_action_success = false;
  last_offensive_hit_turn = 0;
}

abbrev bob : FighterState
bob = record alice {
  player_id = 98 ∷ [];
  archetype = archetype_balanced;
  stats = record { power = 6; technique = 6; agility = 6; endurance = 6 };
}

abbrev pub opening : MatchState
opening = record {
  turn = 0;
  p1 = bob;
  p2 = alice;
  combat_state = state_neutral;
  distance = 1;
  rng_state = 7;
  outcome = record { finished = false; winner_id = []; method = [] };
}

abbrev pub rng : DeterministicRng
rng = record { state = 7 }

abbrev pub strike : TurnInput
strike = record {
  player_id = 97 ∷ [];
  action = action_strike;
  target = zone_head;
  decision_ms = pos 250;
}

abbrev grapple : TurnInput
grapple = record {
  player_id = 98 ∷ [];
  action = action_grapple;
  target = unknown_zone 9;
  decision_ms = pos 10;
}

abbrev pub inputs : List TurnInput
inputs = grapple ∷ strike ∷ []

abbrev pub ordered : List TurnInput
ordered = strike ∷ record grapple { target = zone_torso } ∷ []

accepted : canonicalize_inputs opening inputs ≡ ok ordered
unfolding canonicalize_inputs order_inputs collect_inputs find_input all_known sort_pair input_for
    normalize_zone str_eq str_lt
accepted = refl

first_turn :
    (r : TurnResult × DeterministicRng) × (resolve_turn deterministic opening inputs rng ≡ ok r)
first_turn = resolve_turn_total deterministic opening inputs ordered rng refl accepted

resolve_turn_total_example :
    (r : TurnResult × DeterministicRng) × (resolve_turn deterministic opening inputs rng ≡ ok r)
resolve_turn_total_example =
    resolve_turn_total deterministic opening inputs ordered rng refl accepted

abbrev after : TurnResult
after = first_turn.0.0

resolve_turn-MatchFit_example : MatchFit after.next
resolve_turn-MatchFit_example =
    resolve_turn-MatchFit deterministic opening inputs rng first_turn.0.1 after (omega arith)
      first_turn.1

resolve_turn-NextTurn_example :
    NextTurn opening after.next × (after.next.rng_state ≡ snapshot first_turn.0.1)
resolve_turn-NextTurn_example =
    resolve_turn-NextTurn deterministic opening inputs rng first_turn.0.1 after first_turn.1

opening-Standing : Standing opening
opening-Standing = record { playing = λ _. omega arith; ended = λ e. cc }

resolve_turn-Standing_example : Standing after.next
resolve_turn-Standing_example =
    resolve_turn-Standing deterministic opening inputs rng first_turn.0.1 after opening-Standing
      first_turn.1

-- The same match with the fighter in the second seat stunned.
abbrev dazed : MatchState
dazed = record opening {
  p2 = record alice {
    state = state_stunned;
    effects = record { stunned_for = 1; torso_regen_penalty_for = 0; legs_dodge_penalty_for = 0 };
  };
}

dazed_turn :
    (r : TurnResult × DeterministicRng) × (resolve_turn deterministic dazed inputs rng ≡ ok r)
unfolding canonicalize_inputs
dazed_turn = resolve_turn_total deterministic dazed inputs ordered rng refl accepted

stunned_cannot_act_example :
    (dazed_turn.0.0.next.p1.hp ≡ 100)
    × (dazed_turn.0.0.next.outcome.finished ≡ true
        → dazed_turn.0.0.next.outcome.winner_id ≡ 98 ∷ [])
stunned_cannot_act_example =
    stunned_cannot_act deterministic slot2 dazed inputs rng dazed_turn.0.1 dazed_turn.0.0
      (omega arith) dazed_turn.1

canonicalize-CanonicalPair_example : CanonicalPair (98 ∷ []) (97 ∷ []) ordered
canonicalize-CanonicalPair_example = canonicalize-CanonicalPair opening inputs ordered accepted

canonicalize_arrival_example : canonicalize_inputs opening (strike ∷ grapple ∷ []) ≡ ok ordered
canonicalize_arrival_example = canonicalize_arrival opening grapple strike ordered accepted
