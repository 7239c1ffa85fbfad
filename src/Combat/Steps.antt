-- ===== src/Combat/Steps.antt =====
-- The rule for invariants of one action: what each step of a scene keeps, the whole action keeps.
use terminal_wrestling_leagu.Common.{ℕ, Bool, true, false, if◌then◌else◌}
use terminal_wrestling_leagu.Common.Int.{ℤ}
use terminal_wrestling_leagu.Combat.Types.{
  Action, action_strike, action_grapple, action_counter, action_feint, action_break, Zone,
  TurnInput, RandomSource,
}
use terminal_wrestling_leagu.Combat.Fighter.{FighterTurnContext}
use terminal_wrestling_leagu.Combat.Scene.{
  Scene, log_skip, log_tired, deal_damage, mark_zone, stun, knock_out, advance_position, submit,
  break_hold, gain_momentum, log_resolved, feint, pay, announce, idle, normalize_action,
}
use terminal_wrestling_leagu.Combat.Exchange.{
  roll, try_stun, try_submission, apply_grapple_transition, attack, take_effect, land, attempt, act,
}

-- From `P` before an action to `Q` after it: `P` is kept up to the effect, which brings `Q`.
pub record ActRules {R : Type 0} (source : RandomSource R) (P Q : Scene R → Type 0) : Type 0 where
  pub stops : (sc : Scene R) → P sc → Q sc
  pub skips : (sc : Scene R) → P sc → P (log_skip sc)
  pub tires :
      (action : Action) (target : Zone) (sc : Scene R) → P sc → P (log_tired action target sc)
  pub announces : (action : Action) (sc : Scene R) → P sc → P (announce action sc)
  pub pays : (cost : ℕ) (sc : Scene R) → P sc → P (pay cost sc)
  pub idles : (sc : Scene R) → P sc → P (idle sc)
  pub rolls : (rng : R) (h : ℕ) (sc : Scene R) → P sc → P (record sc { rng = rng; roll_hash = h })
  pub resolves :
      (action : Action) (target : Zone) (chance : ℤ) (hit reach : Bool) (sc : Scene R)
      → P sc
      → P (log_resolved action target chance hit reach sc)
  pub gains :
      (combo : Bool) (action : Action) (sc : Scene R) → P sc → P (gain_momentum combo action sc)
  pub effects :
      (action : Action) (target : Zone) (damage : ℕ) (sc : Scene R)
      → P sc
      → Q (take_effect source action target damage sc)

module _ {R : Type 0} (source : RandomSource R) (P Q : Scene R → Type 0)
    (rules : ActRules source P Q) where
  open rules use {stops, skips, tires, announces, pays, idles, rolls, resolves, gains, effects}

  branch : (b : Bool) {x y : Scene R} → Q x → Q y → Q (if b then x else y)
  branch true hx hy = hx
  branch false hx hy = hy

  resolved_keeps :
      (action : Action) (target : Zone) (chance : ℤ) (hit reach : Bool) (sc : Scene R)
      → P sc
      → P (log_resolved action target chance hit reach (roll source sc).1)
  unfolding roll
  resolved_keeps action target chance hit reach sc h =
      resolves action target chance hit reach (roll source sc).1 (rolls _ _ sc h)

  attempt_ends :
      (ctx : FighterTurnContext) (prev_turn : ℕ) (action : Action) (target : Zone) (sc : Scene R)
      → P sc
      → Q (attempt source ctx prev_turn action target sc)
  unfolding attempt land
  attempt_ends ctx prev_turn action target sc h =
      branch _
        (effects action target _ _ (gains _ action _ (resolved_keeps action target _ _ _ sc h)))
        (stops _ (resolved_keeps action target _ _ _ sc h))

  -- Every branch of an action leads from `P` to `Q`.
  pub act_ends :
      (ctx : FighterTurnContext) (prev_turn : ℕ) (input : TurnInput) (sc : Scene R)
      → P sc
      → Q (act source ctx prev_turn input sc)
  unfolding act
  act_ends ctx prev_turn input sc h =
      let ready = announces (normalize_action input.action) sc h in
      branch _ (stops _ (skips _ ready)) (
        branch _ (stops _ (tires _ _ _ ready)) (
          branch _ (stops _ (idles _ (pays _ _ ready)))
            (attempt_ends ctx prev_turn _ _ _ (pays _ _ ready))))

-- Every step keeps `P`.
pub record StepRules {R : Type 0} (P : Scene R → Type 0) : Type 0 where
  pub skips : (sc : Scene R) → P sc → P (log_skip sc)
  pub tires :
      (action : Action) (target : Zone) (sc : Scene R) → P sc → P (log_tired action target sc)
  pub announces : (action : Action) (sc : Scene R) → P sc → P (announce action sc)
  pub pays : (cost : ℕ) (sc : Scene R) → P sc → P (pay cost sc)
  pub idles : (sc : Scene R) → P sc → P (idle sc)
  pub rolls : (rng : R) (h : ℕ) (sc : Scene R) → P sc → P (record sc { rng = rng; roll_hash = h })
  pub resolves :
      (action : Action) (target : Zone) (chance : ℤ) (hit reach : Bool) (sc : Scene R)
      → P sc
      → P (log_resolved action target chance hit reach sc)
  pub gains :
      (combo : Bool) (action : Action) (sc : Scene R) → P sc → P (gain_momentum combo action sc)
  pub feints : (sc : Scene R) → P sc → P (feint sc)
  pub breaks : (sc : Scene R) → P sc → P (break_hold sc)
  pub attacks :
      (action : Action) (target : Zone) (damage : ℕ) (sc : Scene R)
      → P sc
      → P (deal_damage action target damage sc)
  pub marks : (target : Zone) (sc : Scene R) → P sc → P (mark_zone target sc)
  pub stuns : (target : Zone) (chance : ℤ) (sc : Scene R) → P sc → P (stun target chance sc)
  pub advances : (sc : Scene R) → P sc → P (advance_position sc)
  pub submits : (chance : ℤ) (sc : Scene R) → P sc → P (submit chance sc)
  pub knocks : (sc : Scene R) → P sc → P (knock_out sc)

module _ {R : Type 0} (source : RandomSource R) (P : Scene R → Type 0) (rules : StepRules P) where
  open rules use {
    skips, tires, announces, pays, idles, rolls, resolves, gains, feints, breaks, attacks, marks,
    stuns, advances, submits, knocks,
  }

  -- A conditional keeps what both of its arms keep.
  either : (b : Bool) {x y : Scene R} → P x → P y → P (if b then x else y)
  either true hx hy = hx
  either false hx hy = hy

  rolled : (sc : Scene R) → P sc → P (roll source sc).1
  unfolding roll
  rolled sc h = rolls _ _ sc h

  try_stun_keeps : (target : Zone) (sc : Scene R) → P sc → P (try_stun source target sc)
  unfolding try_stun
  try_stun_keeps target sc h =
      either _ (stuns target _ (roll source sc).1 (rolled sc h)) (rolled sc h)

  try_submission_keeps : (sc : Scene R) → P sc → P (try_submission source sc)
  unfolding try_submission
  try_submission_keeps sc h =
      either _ (either _ (submits _ (roll source sc).1 (rolled sc h)) (rolled sc h)) h

  attack_keeps :
      (action : Action) (target : Zone) (damage : ℕ) (sc : Scene R)
      → P sc
      → P (attack source action target damage sc)
  unfolding attack
  attack_keeps action target damage sc h =
      try_stun_keeps target _ (marks target _ (attacks action target damage sc h))

  take_effect_keeps :
      (action : Action) (target : Zone) (damage : ℕ) (sc : Scene R)
      → P sc
      → P (take_effect source action target damage sc)
  unfolding take_effect apply_grapple_transition
  take_effect_keeps action_strike target damage sc h =
      knocks _ (attack_keeps action_strike target damage sc h)
  take_effect_keeps action_grapple target damage sc h =
      knocks _
        (try_submission_keeps _ (advances _ (attack_keeps action_grapple target damage sc h)))
  take_effect_keeps action_counter target damage sc h =
      knocks _ (attack_keeps action_counter target damage sc h)
  take_effect_keeps action_feint target damage sc h = feints sc h
  take_effect_keeps action_break target damage sc h = breaks sc h
  take_effect_keeps _ target damage sc h = h

  -- What every step keeps, an action keeps, on every branch.
  pub act_keeps :
      (ctx : FighterTurnContext) (prev_turn : ℕ) (input : TurnInput) (sc : Scene R)
      → P sc
      → P (act source ctx prev_turn input sc)
  act_keeps = act_ends source P P (record {
    stops = λ sc h. h;
    skips = skips;
    tires = tires;
    announces = announces;
    pays = pays;
    idles = idles;
    rolls = rolls;
    resolves = resolves;
    gains = gains;
    effects = take_effect_keeps;
  })
