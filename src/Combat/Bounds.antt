-- ===== src/Combat/Bounds.antt =====
-- The ranges of a fighter's numbers through a turn.
use terminal_wrestling_leagu.Common.{ℕ, ◌+◌, ◌≤◌, ◌≡◌, arith, Bool, List}
use terminal_wrestling_leagu.Common.Int.{ℤ, pos, pos_part, sub_ℕ}
use terminal_wrestling_leagu.Combat.Types.{
  State, state_neutral, Action, FighterState, Zone, MatchState, TurnInput, TurnResult, RandomSource,
  Event, ok, hp_max, stamina_max,
}
use terminal_wrestling_leagu.Combat.Rules.{clamp_int, clamp, max_int}
use terminal_wrestling_leagu.Combat.Fighter.{apply_regen, prepare_fighter_turn}
use terminal_wrestling_leagu.Combat.Scene.{
  Scene, log_skip, log_tired, deal_damage, mark_zone, stun, knock_out, advance_position, submit,
  break_hold, gain_momentum, log_resolved, feint, pay, announce, idle, take_position, next_position,
}
use terminal_wrestling_leagu.Combat.Fighter.{FighterTurnContext}
use terminal_wrestling_leagu.Combat.Turn.{
  Slot, slot1, slot2, Contexts, Progress, enter, leave, exchange, begin_turn, end_turn, turn_result,
  recover, resolve_turn,
}
use terminal_wrestling_leagu.Combat.Steps.{StepRules, act_keeps}
use terminal_wrestling_leagu.Combat.Rounds.{Ensures, Ensures-ok, resolve_turn_keeps}

-- The ranges that the resolver keeps, the effect counters included.
pub record IsFit (f : FighterState) : Type 0 where
  pub hp_le : f.hp ≤ hp_max
  pub stamina_le : f.stamina ≤ stamina_max
  pub momentum_le : f.momentum ≤ 50
  pub stunned_le : f.effects.stunned_for ≤ 1
  pub torso_le : f.effects.torso_regen_penalty_for ≤ 2
  pub legs_le : f.effects.legs_dodge_penalty_for ≤ 2

pub record BothFit {R : Type 0} (sc : Scene R) : Type 0 where
  pub actor_fit : IsFit sc.actor
  pub defender_fit : IsFit sc.defender

clamp-le : (v lo hi : ℕ) → lo ≤ hi → clamp v lo hi ≤ hi
unfolding clamp
clamp-le v lo hi h = ground arith

-- Taking away and clamping at 0 is truncated subtraction.
pub clamp_sub : (a b hi : ℕ) → pos_part (clamp_int (sub_ℕ a b) (pos 0) (pos hi)) ≤ hi
unfolding clamp_int
clamp_sub a b hi = ground arith

max_int-le : (a b hi : ℕ) → a ≤ hi → b ≤ hi → max_int a b ≤ hi
unfolding max_int
max_int-le a b hi ha hb = ground arith

take_position-IsFit : (s : State) (f : FighterState) → IsFit f → IsFit (take_position s f)
unfolding take_position
take_position-IsFit s f h = ground arith

module _ {R : Type 0} where
  deal_damage-BothFit :
      (action : Action) (target : Zone) (damage : ℕ) (sc : Scene R)
      → BothFit sc
      → BothFit (deal_damage action target damage sc)
  unfolding deal_damage
  deal_damage-BothFit action target damage sc h =
      ground (arith, clamp_sub sc.defender.hp damage 100, clamp_sub sc.defender.momentum 6 50)

  mark_zone-BothFit : (target : Zone) (sc : Scene R) → BothFit sc → BothFit (mark_zone target sc)
  unfolding mark_zone
  mark_zone-BothFit target sc h = ground (
    arith,
    max_int-le sc.defender.effects.torso_regen_penalty_for 2 2,
    max_int-le sc.defender.effects.legs_dodge_penalty_for 2 2,
  )

  stun-BothFit :
      (target : Zone) (chance : ℤ) (sc : Scene R) → BothFit sc → BothFit (stun target chance sc)
  unfolding stun
  stun-BothFit target chance sc h = ground (arith, max_int-le sc.defender.effects.stunned_for 1 1)

  gain_momentum-BothFit :
      (combo : Bool) (action : Action) (sc : Scene R)
      → BothFit sc
      → BothFit (gain_momentum combo action sc)
  unfolding gain_momentum
  gain_momentum-BothFit combo action sc h = ground (
    arith,
    clamp-le (sc.actor.momentum + 8) 0 50,
    clamp-le (clamp (sc.actor.momentum + 8) 0 50 + 5) 0 50,
  )

  BothFit-rules : StepRules (BothFit {R = R})
  unfolding log_skip log_tired announce pay idle log_resolved feint break_hold advance_position
      submit knock_out
  BothFit-rules = record {
    skips = λ sc h. ground arith;
    tires = λ action target sc h. ground arith;
    announces = λ action sc h. ground arith;
    pays = λ cost sc h. ground arith;
    idles = λ sc h. ground arith;
    rolls = λ rng h sc b. ground arith;
    resolves = λ action target chance hit reach sc h. ground arith;
    gains = gain_momentum-BothFit;
    feints = λ sc h. ground arith;
    breaks = λ sc h. ground (
      arith,
      take_position-IsFit state_neutral sc.actor,
      take_position-IsFit state_neutral sc.defender,
    );
    attacks = deal_damage-BothFit;
    marks = mark_zone-BothFit;
    stuns = stun-BothFit;
    advances = λ sc h. ground (
      arith,
      take_position-IsFit (next_position sc.combat_state) sc.actor,
      take_position-IsFit (next_position sc.combat_state) sc.defender,
    );
    submits = λ chance sc h. ground arith;
    knocks = λ sc h. ground arith;
  }

-- Both fighters of a match are fit.
abbrev pub MatchFit : MatchState → Type 0
MatchFit s = IsFit s.p1 × IsFit s.p2

prepare-IsFit : (f : FighterState) → IsFit f → IsFit (prepare_fighter_turn f).1
unfolding prepare_fighter_turn
prepare-IsFit f h = ground arith

apply_regen-IsFit :
    (f : FighterState) (ctx : FighterTurnContext) (turn : ℕ) (events : List Event)
    → IsFit f
    → IsFit (apply_regen f ctx turn events).0
unfolding apply_regen
apply_regen-IsFit f ctx turn events h = record {
  hp_le = h.hp_le;
  stamina_le = clamp-le _ 0 100 (omega arith);
  momentum_le = h.momentum_le;
  stunned_le = h.stunned_le;
  torso_le = h.torso_le;
  legs_le = h.legs_le;
}

recover-IsFit : (s : State) (f : FighterState) → IsFit f → IsFit (recover s f)
unfolding recover
recover-IsFit s f h = ground arith

module _ {R : Type 0} (source : RandomSource R) where
  exchange-MatchFit :
      (ctxs : Contexts) (prev_turn : ℕ) (slot : Slot) (input : TurnInput) (p : Progress R)
      → MatchFit p.next
      → MatchFit (exchange source ctxs prev_turn slot input p).next
  unfolding exchange enter leave
  exchange-MatchFit ctxs prev_turn slot1 input p (h1, h2) =
      let both =
        act_keeps source BothFit BothFit-rules ctxs.ctx1 prev_turn input (enter slot1 p)
          (record { actor_fit = h1; defender_fit = h2 }) in
      (both.actor_fit, both.defender_fit)
  exchange-MatchFit ctxs prev_turn slot2 input p (h1, h2) =
      let both =
        act_keeps source BothFit BothFit-rules ctxs.ctx2 prev_turn input (enter slot2 p)
          (record { actor_fit = h2; defender_fit = h1 }) in
      (both.defender_fit, both.actor_fit)

  turn-MatchFit :
      (state : MatchState) (inputs : List TurnInput) (rng : R)
      → MatchFit state
      → Ensures (λ r. MatchFit r.0.next) (resolve_turn source state inputs rng)
  unfolding begin_turn end_turn turn_result
  turn-MatchFit state inputs rng h =
      resolve_turn_keeps source (λ _ p. MatchFit p.next) (λ r. MatchFit r.0.next) state inputs rng
        (λ _ xs _. (prepare-IsFit _ h.0, prepare-IsFit _ h.1))
        (λ ctxs slot input p _ _ b. exchange-MatchFit ctxs state.turn slot input p b)
        λ ctxs p b. (
          recover-IsFit _ _ (apply_regen-IsFit _ _ _ _ b.0),
          recover-IsFit _ _ (apply_regen-IsFit _ _ _ _ b.1),
        )

  -- A turn keeps every number of both fighters in its range: health and stamina up to 100, momentum
  -- up to 50, one turn of stun and two turns of each penalty at the most.
  pub resolve_turn-MatchFit :
      (state : MatchState) (inputs : List TurnInput) (rng rng' : R) (res : TurnResult)
      → MatchFit state
      → resolve_turn source state inputs rng ≡ ok (res, rng')
      → MatchFit res.next
  resolve_turn-MatchFit state inputs rng rng' res h e =
      Ensures-ok (λ r. MatchFit r.0.next) (turn-MatchFit state inputs rng h) e
