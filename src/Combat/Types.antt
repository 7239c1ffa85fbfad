-- ===== src/Combat/Types.antt =====
-- internal/combat/types.go: the data of a fight. A field that the program never makes negative is a
-- natural number; a value that can be negative is an integer. `unknown` codes stand for the values
-- of a Go `uint8` enumeration beyond its constants.
use terminal_wrestling_leagu.Common.{ℕ, Bool, false, Option, none, some, List, []}
use terminal_wrestling_leagu.Common.Int.{ℤ, pos}
use terminal_wrestling_leagu.Common.Text.{Str}

pub data State : Type 0 where
  state_neutral state_clinch state_ground state_dominant state_stunned : State
  state_submission_attempt : State

pub data Action : Type 0 where
  action_none action_strike action_grapple action_block action_dodge : Action
  action_counter action_feint action_break : Action
  unknown_action : ℕ → Action

pub data Zone : Type 0 where
  zone_head zone_torso zone_legs : Zone
  unknown_zone : ℕ → Zone

pub data Archetype : Type 0 where
  archetype_balanced archetype_powerhouse archetype_technician archetype_high_flyer : Archetype
  unknown_archetype : ℕ → Archetype

pub record FighterStats : Type 0 where
  pub power : ℕ
  pub technique : ℕ
  pub agility : ℕ
  pub endurance : ℕ

-- The map `ArchetypeStats`; `none` is a missing key.
unfoldable pub archetype_stats : Archetype → Option FighterStats
archetype_stats archetype_balanced =
    some (record { power = 6; technique = 6; agility = 6; endurance = 6 })
archetype_stats archetype_powerhouse =
    some (record { power = 9; technique = 4; agility = 4; endurance = 8 })
archetype_stats archetype_technician =
    some (record { power = 5; technique = 9; agility = 5; endurance = 6 })
archetype_stats archetype_high_flyer =
    some (record { power = 4; technique = 6; agility = 9; endurance = 5 })
archetype_stats (unknown_archetype n) = none

abbrev pub hp_max : ℕ
hp_max = 100

abbrev pub stamina_max : ℕ
stamina_max = 100

pub record StatusEffects : Type 0 where
  pub stunned_for : ℕ
  pub torso_regen_penalty_for : ℕ
  pub legs_dodge_penalty_for : ℕ

pub record FighterState : Type 0 where
  pub player_id : Str
  pub archetype : Archetype
  pub stats : FighterStats
  pub hp : ℕ
  pub stamina : ℕ
  pub momentum : ℕ
  pub state : State
  pub effects : StatusEffects
  pub last_action : Action
  pub last_action_success : Bool
  pub last_offensive_hit_turn : ℕ

pub record MatchOutcome : Type 0 where
  pub finished : Bool
  pub winner_id : Str
  pub method : Str

pub record MatchState : Type 0 where
  pub turn : ℕ
  pub p1 : FighterState
  pub p2 : FighterState
  pub combat_state : State
  pub distance : ℕ
  pub rng_state : ℕ
  pub outcome : MatchOutcome

pub record TurnInput : Type 0 where
  pub player_id : Str
  pub action : Action
  pub target : Zone
  pub decision_ms : ℤ

pub data EventType : Type 0 where
  event_turn_started event_action_resolved event_damage_applied event_status_applied : EventType
  event_state_changed event_match_finished event_stamina_restored : EventType

pub record Event : Type 0 where
  pub turn : ℕ
  pub kind : EventType
  pub player_id : Str
  pub target_id : Str
  pub action : Action
  pub zone : Zone
  pub value : ℤ
  pub success : Bool
  pub detail : Str

pub record TurnChecksum : Type 0 where
  pub state_hash : ℕ
  pub roll_hash : ℕ

pub record TurnResult : Type 0 where
  pub events : List Event
  pub next : MatchState
  pub checksums : TurnChecksum

-- The contract of a source of random numbers: its state is passed on explicitly.
pub record RandomSource (R : Type 0) : Type 0 where
  pub next_int : ℤ → R → ℤ × R
  pub snapshot : R → ℕ

-- The errors of the package.
pub data CombatError : Type 0 where
  unknown_archetype_error empty_input_id duplicate_input empty_state_id duplicate_state_id :
      CombatError
  unknown_input_id match_finished unknown_player : CombatError

-- A value or an error, for Go's `(T, error)`.
pub data Result (T : Type 0) : Type 0 where
  err : CombatError → Result T
  ok : T → Result T

-- `if err != nil { return ..., err }` between two calls.
infixl 5 ◌>>=◌
abbrev pub ◌>>=◌ : {T U : Type 0} → Result T → (T → Result U) → Result U
◌>>=◌ m next = elim m [ err reason ↦ err reason | ok value ↦ next value ]

abbrev pub no_effects : StatusEffects
no_effects = record { stunned_for = 0; torso_regen_penalty_for = 0; legs_dodge_penalty_for = 0 }

abbrev pub no_outcome : MatchOutcome
no_outcome = record { finished = false; winner_id = []; method = [] }

-- Go's zero value of an event, which a literal completes.
abbrev pub zero_event : Event
zero_event = record {
  turn = 0;
  kind = event_turn_started;
  player_id = [];
  target_id = [];
  action = action_none;
  zone = zone_head;
  value = pos 0;
  success = false;
  detail = [];
}

unfoldable pub new_fighter : Str → Archetype → Result FighterState
new_fighter player_id archetype = elim (archetype_stats archetype) [
  | none ↦ err unknown_archetype_error
  | some stats ↦ ok (record {
    player_id = player_id;
    archetype = archetype;
    stats = stats;
    hp = hp_max;
    stamina = stamina_max;
    momentum = 0;
    state = state_neutral;
    effects = no_effects;
    last_action = action_none;
    last_action_success = false;
    last_offensive_hit_turn = 0;
  })
]

unfoldable pub new_match_state : FighterState → FighterState → MatchState
new_match_state p1 p2 = record {
  turn = 0;
  p1 = p1;
  p2 = p2;
  combat_state = state_neutral;
  distance = 1;
  rng_state = 0;
  outcome = no_outcome;
}
