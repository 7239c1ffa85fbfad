-- ===== src/Npc/Adjust.antt =====
-- internal/npc/engine.go: the adjustments of the weights to the state of both fighters.
use terminal_wrestling_leagu.Common.{ℕ, Bool, true, false, List, map, ltb, leb, if◌then◌else◌}
use terminal_wrestling_leagu.Common.Int.{ℤ, pos, negsuc, ◌+ℤ◌, ◌-ℤ◌, sub_ℕ, leb_ℤ, ltb_ℤ}
use terminal_wrestling_leagu.Combat.Types.{
  State, state_clinch, state_ground, state_submission_attempt, Action, action_strike,
  action_grapple, action_block, action_dodge, action_counter, action_break, Zone, zone_head,
  zone_torso, zone_legs, FighterState,
}
use terminal_wrestling_leagu.Npc.Choice.{Weight}

abbrev plus_if : Bool → ℕ → ℤ → ℤ
plus_if test k w = if test then w +ℤ pos k else w

abbrev minus_if : Bool → ℕ → ℤ → ℤ
minus_if test k w = if test then w -ℤ pos k else w

abbrev is_held : State → Bool
is_held state_submission_attempt = true
is_held state_ground = true
is_held state_clinch = true
is_held _ = false

unfoldable pub at_least_one : ℤ → ℤ
at_least_one w = if ltb_ℤ w (pos 1) then pos 1 else w

-- The `switch` on the action of a weight.
unfoldable pub adjusted_action : FighterState → FighterState → Action → ℤ → ℤ
adjusted_action self opp action_strike w = plus_if (ltb opp.stamina 25) 6 (
    plus_if (leb_ℤ (pos 20) (sub_ℕ self.momentum opp.momentum)) 8
      (minus_if (ltb self.stamina 30) 8 w))
adjusted_action self opp action_grapple w = plus_if (ltb opp.stamina 25) 6 (
    plus_if (leb_ℤ (pos 20) (sub_ℕ self.momentum opp.momentum)) 8
      (minus_if (ltb self.stamina 30) 8 w))
adjusted_action self opp action_block w =
    plus_if (leb_ℤ (sub_ℕ self.momentum opp.momentum) (negsuc 14)) 8
      (plus_if (ltb self.stamina 30) 10 w)
adjusted_action self opp action_dodge w =
    plus_if (leb_ℤ (sub_ℕ self.momentum opp.momentum) (negsuc 14)) 8
      (plus_if (ltb self.stamina 30) 10 w)
adjusted_action self opp action_counter w =
    plus_if (leb_ℤ (sub_ℕ self.momentum opp.momentum) (negsuc 9)) 6 w
adjusted_action self opp action_break w =
    plus_if (is_held self.state) 6 (plus_if (ltb self.stamina 30) 6 w)
adjusted_action self opp _ w = w

unfoldable pub adjust_action_weights :
    List (Weight Action) → FighterState → FighterState → List (Weight Action)
adjust_action_weights weights self opp =
    map
      (λ (w : Weight Action). record w {
        weight = at_least_one (adjusted_action self opp w.item w.weight);
      })
      weights

abbrev is_grapple : Action → Bool
is_grapple action_grapple = true
is_grapple _ = false

-- The `switch` on the zone of a weight.
unfoldable pub adjusted_zone : Action → FighterState → FighterState → Zone → ℤ → ℤ
adjusted_zone action self opp zone_head w =
    plus_if (ltb opp.stamina 25) 8 (plus_if (leb_ℤ (pos 15) (sub_ℕ self.momentum opp.momentum)) 8 w)
adjusted_zone action self opp zone_torso w = plus_if (is_grapple action) 10 w
adjusted_zone action self opp zone_legs w =
    plus_if (leb 8 opp.stats.agility) 6 (plus_if (ltb 0 opp.effects.legs_dodge_penalty_for) 10 w)
adjusted_zone action self opp _ w = w

unfoldable pub adjust_zone_weights :
    List (Weight Zone) → Action → FighterState → FighterState → List (Weight Zone)
adjust_zone_weights weights action self opp =
    map
      (λ (w : Weight Zone). record w {
        weight = at_least_one (adjusted_zone action self opp w.item w.weight);
      })
      weights
