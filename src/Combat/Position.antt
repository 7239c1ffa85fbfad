-- ===== src/Combat/Position.antt =====
-- How the position of the fight moves: one rung up by a grapple, back to neutral by a break.
use terminal_wrestling_leagu.Common.{ℕ, ◌≡◌, refl, sym, ap, ◌∙◌, arith, subst}
use terminal_wrestling_leagu.Combat.Types.{
  State, state_neutral, state_clinch, state_ground, state_dominant, state_submission_attempt,
  state_stunned, Action, action_strike, action_grapple, action_counter, action_feint, action_break,
  Zone, TurnInput, RandomSource,
}
use terminal_wrestling_leagu.Combat.Fighter.{FighterTurnContext}
use terminal_wrestling_leagu.Combat.Scene.{
  Scene, log_skip, log_tired, deal_damage, mark_zone, stun, knock_out, advance_position, submit,
  break_hold, gain_momentum, log_resolved, feint, pay, announce, idle, next_position, is_advance,
}
use terminal_wrestling_leagu.Combat.Exchange.{
  roll, try_stun, try_submission, apply_grapple_transition, attack, take_effect, act,
}
use terminal_wrestling_leagu.Combat.Turn.{
  Slot, slot1, slot2, Contexts, Progress, enter, leave, exchange,
}
use terminal_wrestling_leagu.Combat.Steps.{act_ends}

-- The ladder of positions, from the neutral one up to the attempt at a submission.
pub data Rung : State → State → Type 0 where
  to_clinch : Rung state_neutral state_clinch
  to_ground : Rung state_clinch state_ground
  to_dominant : Rung state_ground state_dominant
  to_submission : Rung state_dominant state_submission_attempt

-- The position stays, climbs one rung, or falls back to neutral.
pub data PositionMove (s t : State) : Type 0 where
  stays : t ≡ s → PositionMove s t
  climbs : Rung s t → PositionMove s t
  escapes : t ≡ state_neutral → PositionMove s t

next_position-PositionMove : (s : State) → PositionMove s (next_position s)
unfolding next_position
next_position-PositionMove state_neutral = climbs to_clinch
next_position-PositionMove state_clinch = climbs to_ground
next_position-PositionMove state_ground = climbs to_dominant
next_position-PositionMove state_dominant = climbs to_submission
next_position-PositionMove state_submission_attempt = stays refl
next_position-PositionMove state_stunned = stays refl

module _ {R : Type 0} (source : RandomSource R) where
  attack-combat_state :
      (action : Action) (target : Zone) (damage : ℕ) (sc : Scene R)
      → (attack source action target damage sc).combat_state ≡ sc.combat_state
  unfolding attack try_stun roll stun mark_zone deal_damage
  attack-combat_state action target damage sc = ground arith

  knock_out-combat_state : (sc : Scene R) → (knock_out sc).combat_state ≡ sc.combat_state
  unfolding knock_out
  knock_out-combat_state sc = ground arith

  submission-combat_state :
      (sc : Scene R) → (try_submission source sc).combat_state ≡ sc.combat_state
  unfolding try_submission roll submit
  submission-combat_state sc = ground arith

  advance-combat_state :
      (sc : Scene R) → (advance_position sc).combat_state ≡ next_position sc.combat_state
  unfolding advance_position is_advance next_position
  advance-combat_state sc = ground arith

  take_effect-PositionMove :
      (c : State) (action : Action) (target : Zone) (damage : ℕ) (sc : Scene R)
      → sc.combat_state ≡ c
      → PositionMove c (take_effect source action target damage sc).combat_state
  unfolding take_effect apply_grapple_transition feint break_hold
  take_effect-PositionMove c action_strike target damage sc h =
      stays (knock_out-combat_state _ ∙ attack-combat_state _ target damage sc ∙ h)
  take_effect-PositionMove c action_grapple target damage sc h =
      let hit = attack source action_grapple target damage sc in
      let moved =
        knock_out-combat_state _
        ∙ submission-combat_state (advance_position hit)
        ∙ advance-combat_state hit
        ∙ ap next_position (attack-combat_state _ target damage sc ∙ h) in
      subst (PositionMove c) (sym moved) (next_position-PositionMove c)
  take_effect-PositionMove c action_counter target damage sc h =
      stays (knock_out-combat_state _ ∙ attack-combat_state _ target damage sc ∙ h)
  take_effect-PositionMove c action_feint target damage sc h = stays h
  take_effect-PositionMove c action_break target damage sc h = escapes refl
  take_effect-PositionMove c _ target damage sc h = stays h

  act-PositionMove :
      (ctx : FighterTurnContext) (prev_turn : ℕ) (input : TurnInput) (sc : Scene R)
      → PositionMove sc.combat_state (act source ctx prev_turn input sc).combat_state
  unfolding log_skip log_tired announce pay idle log_resolved gain_momentum
  act-PositionMove ctx prev_turn input sc0 =
      act_ends source (λ sc. sc.combat_state ≡ sc0.combat_state)
        (λ sc. PositionMove sc0.combat_state sc.combat_state)
        (record {
          stops = λ sc h. stays h;
          skips = λ sc h. h;
          tires = λ action target sc h. h;
          announces = λ action sc h. h;
          pays = λ cost sc h. h;
          idles = λ sc h. h;
          rolls = λ rng sum sc h. h;
          resolves = λ action target chance hit reach sc h. h;
          gains = λ combo action sc h. ground arith;
          effects = take_effect-PositionMove sc0.combat_state;
        })
        ctx prev_turn input sc0 refl

  -- One fighter's action, whatever it is and however its rolls fall, leaves the position of the fight
  -- as it was, takes it to the next rung of neutral, clinch, ground, dominant and submission attempt,
  -- or back to neutral.
  pub exchange-PositionMove :
      (ctxs : Contexts) (prev_turn : ℕ) (slot : Slot) (input : TurnInput) (p : Progress R)
      → PositionMove p.next.combat_state
          (exchange source ctxs prev_turn slot input p).next.combat_state
  unfolding exchange enter leave
  exchange-PositionMove ctxs prev_turn slot1 input p =
      act-PositionMove ctxs.ctx1 prev_turn input (enter slot1 p)
  exchange-PositionMove ctxs prev_turn slot2 input p =
      act-PositionMove ctxs.ctx2 prev_turn input (enter slot2 p)
