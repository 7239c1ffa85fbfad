-- ===== src/Combat/Exchange.antt =====
-- internal/combat/resolver.go: one action of one fighter, the body of the loop in `ResolveTurn`, with
-- its random numbers.
use terminal_wrestling_leagu.Common.{ℕ, ◌&&◌, not, ltb, if◌then◌else◌}
use terminal_wrestling_leagu.Common.Int.{ℤ, pos, sub_ℕ, ltb_ℤ}
use terminal_wrestling_leagu.Combat.Types.{
  Action, action_strike, action_grapple, action_counter, action_feint, action_break, Zone,
  TurnInput, RandomSource,
}
use terminal_wrestling_leagu.Combat.Rules.{
  action_stamina_cost, base_damage, damage_final, stun_chance_bps, submission_chance_bps,
}
use terminal_wrestling_leagu.Combat.Order.{normalize_zone}
use terminal_wrestling_leagu.Combat.Hash.{append_hash_int}
use terminal_wrestling_leagu.Combat.Fighter.{FighterTurnContext, is_none, resolve_success_chance}
use terminal_wrestling_leagu.Combat.Scene.{
  Scene, normalize_action, is_submission_attempt, is_combo, in_reach, log_skip, log_tired,
  deal_damage, mark_zone, stun, knock_out, advance_position, submit, break_hold, gain_momentum,
  log_resolved, feint, pay, announce, idle,
}

-- The steps that roll: `rng.NextInt(10000)`, and the roll enters the sum.
module _ {R : Type 0} (source : RandomSource R) where
  unfoldable pub roll : Scene R → ℤ × Scene R
  roll sc =
      let (v, rng) = source.next_int (pos 10000) sc.rng in
      (v, record sc { rng = rng; roll_hash = append_hash_int sc.roll_hash v })

  unfoldable pub try_stun : Zone → Scene R → Scene R
  try_stun target sc =
      let chance =
        stun_chance_bps target sc.defender.stamina (sub_ℕ sc.actor.momentum sc.defender.momentum) in
      let (v, sc') = roll sc in if ltb_ℤ v chance then stun target chance sc' else sc'

  -- The second half of `applyGrappleTransition`.
  unfoldable pub try_submission : Scene R → Scene R
  try_submission sc =
      let chance = submission_chance_bps sc.actor sc.defender in
      let (v, sc') = roll sc in
      if is_submission_attempt sc.combat_state && not sc.outcome.finished
      then if ltb_ℤ v chance then submit chance sc' else sc'
      else sc

  unfoldable pub apply_grapple_transition : Scene R → Scene R
  apply_grapple_transition sc = try_submission (advance_position sc)

  -- The case of the attacks: strike, grapple and counter.
  unfoldable pub attack : Action → Zone → ℕ → Scene R → Scene R
  attack action target damage sc =
      try_stun target (mark_zone target (deal_damage action target damage sc))

  -- The `switch` on a successful action.
  unfoldable pub take_effect : Action → Zone → ℕ → Scene R → Scene R
  unfolding feint
  take_effect action_strike target damage sc = knock_out (attack action_strike target damage sc)
  take_effect action_grapple target damage sc =
      knock_out (apply_grapple_transition (attack action_grapple target damage sc))
  take_effect action_counter target damage sc = knock_out (attack action_counter target damage sc)
  take_effect action_feint target damage sc = feint sc
  take_effect action_break target damage sc = break_hold sc
  take_effect _ target damage sc = sc

  -- A success: momentum, then the effect, whose damage reads the momentum from before.
  unfoldable pub land : ℕ → Action → Zone → Scene R → Scene R
  land prev_turn action target sc =
      let combo = is_combo prev_turn action sc.actor in
      let damage = damage_final (base_damage action sc.actor.stats) sc.actor.momentum combo in
      take_effect action target damage (gain_momentum combo action sc)

  -- From the roll on, the cost being paid.
  unfoldable pub attempt : FighterTurnContext → ℕ → Action → Zone → Scene R → Scene R
  attempt ctx prev_turn action target sc =
      let chance = resolve_success_chance sc.actor sc.defender action ctx in
      let (v, sc') = roll sc in
      let hit = ltb_ℤ v chance in
      let reach = in_reach action sc.distance in
      let done = log_resolved action target chance hit reach sc' in
      if hit && reach then land prev_turn action target done else done

  unfoldable pub act : FighterTurnContext → ℕ → TurnInput → Scene R → Scene R
  unfolding pay announce idle
  act ctx prev_turn input sc =
      let action = normalize_action input.action in
      let target = normalize_zone input.target in
      let cost = action_stamina_cost action sc.actor.stats.endurance in
      let ready = announce action sc in
      if ctx.stunned_at_turn_start
      then log_skip ready
      else if ltb sc.actor.stamina cost
      then log_tired action target ready
      else if is_none action
      then idle (pay cost ready)
      else attempt ctx prev_turn action target (pay cost ready)
