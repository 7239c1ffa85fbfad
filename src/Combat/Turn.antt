-- ===== src/Combat/Turn.antt =====
-- internal/combat/resolver.go: `ResolveTurn`. The maps keyed by player id are indexed by the slot
-- of the fighter, since `canonicalize_inputs` has refused equal ids.
use terminal_wrestling_leagu.Common.{
  ℕ, ◌+◌, ◌&&◌, Option, none, some, List, [], ◌∷◌, ◌==◌, if◌then◌else◌,
}
use terminal_wrestling_leagu.Common.Text.{Str, bytes, str_eq}
use terminal_wrestling_leagu.Combat.Types.{
  State, Action, action_none, FighterState, MatchState, TurnInput, Event, zero_event,
  event_turn_started, TurnResult, RandomSource, Result, ok, err, ◌>>=◌, match_finished,
  unknown_player,
}
use terminal_wrestling_leagu.Combat.Order.{find_input, canonicalize_inputs}
use terminal_wrestling_leagu.Combat.Hash.{fnv_new, hash_match_state}
use terminal_wrestling_leagu.Combat.Fighter.{FighterTurnContext, prepare_fighter_turn, apply_regen}
use terminal_wrestling_leagu.Combat.Scene.{Scene, is_stunned}
use terminal_wrestling_leagu.Combat.Exchange.{act}

pub data Slot : Type 0 where
  slot1 slot2 : Slot

unfoldable pub fighters_by_id : MatchState → Str → Option Slot
fighters_by_id state id =
    if str_eq state.p1.player_id id
    then some slot1
    else if str_eq state.p2.player_id id
    then some slot2
    else none

-- The pointers that `fightersByID` returns, by the slot that it finds.
abbrev pub actor_of : Slot → MatchState → FighterState
actor_of slot1 state = state.p1
actor_of slot2 state = state.p2

abbrev pub defender_of : Slot → MatchState → FighterState
defender_of slot1 state = state.p2
defender_of slot2 state = state.p1

-- `actions[id].Action`, with the zero value for a missing key.
unfoldable pub action_of : Str → List TurnInput → Action
action_of id inputs = elim (find_input id inputs) [ none ↦ action_none | some x ↦ x.action ]

pub record Contexts : Type 0 where
  pub ctx1 : FighterTurnContext
  pub ctx2 : FighterTurnContext

abbrev pub context_of : Slot → Contexts → FighterTurnContext
context_of slot1 c = c.ctx1
context_of slot2 c = c.ctx2

-- What the loop over the inputs carries.
pub record Progress (R : Type 0) : Type 0 where
  pub next : MatchState
  pub rng : R
  pub roll_hash : ℕ
  pub events : List Event

-- The stun ends when its counter is used up.
unfoldable pub recover : State → FighterState → FighterState
recover combat_state f =
    if is_stunned f.state && f.effects.stunned_for == 0
    then record f { state = combat_state }
    else f

module _ {R : Type 0} where
  unfoldable pub enter : Slot → Progress R → Scene R
  enter slot1 p = record {
    actor = p.next.p1;
    defender = p.next.p2;
    turn = p.next.turn;
    distance = p.next.distance;
    combat_state = p.next.combat_state;
    outcome = p.next.outcome;
    rng = p.rng;
    roll_hash = p.roll_hash;
    events = p.events;
  }
  enter slot2 p = record {
    actor = p.next.p2;
    defender = p.next.p1;
    turn = p.next.turn;
    distance = p.next.distance;
    combat_state = p.next.combat_state;
    outcome = p.next.outcome;
    rng = p.rng;
    roll_hash = p.roll_hash;
    events = p.events;
  }

  unfoldable pub leave : Slot → Progress R → Scene R → Progress R
  leave slot1 p sc = record {
    next = record (p.next) {
      p1 = sc.actor;
      p2 = sc.defender;
      combat_state = sc.combat_state;
      outcome = sc.outcome;
    };
    rng = sc.rng;
    roll_hash = sc.roll_hash;
    events = sc.events;
  }
  leave slot2 p sc = record {
    next = record (p.next) {
      p1 = sc.defender;
      p2 = sc.actor;
      combat_state = sc.combat_state;
      outcome = sc.outcome;
    };
    rng = sc.rng;
    roll_hash = sc.roll_hash;
    events = sc.events;
  }

  -- The state before the loop: the turn counts up and both fighters are prepared.
  unfoldable pub begin_turn : MatchState → List TurnInput → R → Contexts × Progress R
  begin_turn state ordered rng =
      let (c1, f1) = prepare_fighter_turn state.p1 in
      let (c2, f2) = prepare_fighter_turn state.p2 in
      (
        record {
          ctx1 = record c1 { opponent_action = action_of state.p2.player_id ordered };
          ctx2 = record c2 { opponent_action = action_of state.p1.player_id ordered };
        },
        record {
          next = record state { turn = state.turn + 1; p1 = f1; p2 = f2 };
          rng = rng;
          roll_hash = fnv_new;
          events =
              record zero_event {
                turn = state.turn + 1;
                kind = event_turn_started;
                detail = bytes "turn_begin";
              }
              ∷ [];
        },
      )

module _ {R : Type 0} (source : RandomSource R) where
  unfoldable pub exchange : Contexts → ℕ → Slot → TurnInput → Progress R → Progress R
  exchange ctxs prev_turn slot input p =
      leave slot p (act source (context_of slot ctxs) prev_turn input (enter slot p))

  -- One round of the loop. `break` skips the inputs that are left, which all see the end too.
  unfoldable pub resolve_input : Contexts → ℕ → TurnInput → Progress R → Result (Progress R)
  resolve_input ctxs prev_turn input p =
      let found : Result (Progress R) = elim (fighters_by_id p.next input.player_id) [
        | none ↦ err unknown_player
        | some slot ↦ ok (exchange ctxs prev_turn slot input p)
      ] in
      if p.next.outcome.finished then ok p else found

  unfoldable pub resolve_inputs : Contexts → ℕ → List TurnInput → Progress R → Result (Progress R)
  resolve_inputs ctxs prev_turn [] p = ok p
  resolve_inputs ctxs prev_turn (x ∷ xs) p =
      resolve_input ctxs prev_turn x p >>= resolve_inputs ctxs prev_turn xs

  -- After the loop: regeneration, recovery and the snapshot of the random numbers.
  unfoldable pub end_turn : Contexts → Progress R → Progress R
  end_turn ctxs p =
      let (f1, events1) = apply_regen p.next.p1 ctxs.ctx1 p.next.turn p.events in
      let (f2, events2) = apply_regen p.next.p2 ctxs.ctx2 p.next.turn events1 in
      record p {
        next = record (p.next) {
          p1 = recover p.next.combat_state f1;
          p2 = recover p.next.combat_state f2;
          rng_state = source.snapshot p.rng;
        };
        events = events2;
      }

  unfoldable pub turn_result : Progress R → TurnResult × R
  turn_result p = (
    record {
      events = p.events;
      next = p.next;
      checksums = record { state_hash = hash_match_state p.next; roll_hash = p.roll_hash };
    },
    p.rng,
  )

  -- What follows a successful canonicalization.
  unfoldable pub play_turn : MatchState → R → List TurnInput → Result (TurnResult × R)
  play_turn state rng ordered =
      let (ctxs, start) = begin_turn state ordered rng in
      resolve_inputs ctxs state.turn ordered start >>= λ p. ok (turn_result (end_turn ctxs p))

  unfoldable pub resolve_turn : MatchState → List TurnInput → R → Result (TurnResult × R)
  resolve_turn state inputs rng =
      if state.outcome.finished
      then err match_finished
      else canonicalize_inputs state inputs >>= play_turn state rng
