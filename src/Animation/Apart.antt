-- ===== src/Animation/Apart.antt =====
-- Where the two fighters are drawn.
use terminal_wrestling_leagu.Common.{ℕ, ◌+◌, ◌/◌, ◌≤◌, arith, Bool, true, false, List, [], ◌∷◌, All}
use terminal_wrestling_leagu.Common.Int.{ℤ, pos, ◌+ℤ◌, ◌-ℤ◌, pos_part, neg_part}
use terminal_wrestling_leagu.Common.Text.{Str, bytes}
use terminal_wrestling_leagu.Combat.Types.{
  Action, MatchState, action_none, action_strike, action_grapple, action_block, action_dodge,
  action_counter, action_feint, action_break, unknown_action,
}
use terminal_wrestling_leagu.Animation.{Effect, CinematicPhase, TurnVfx}
use terminal_wrestling_leagu.Animation.Poses.{approach_distance}
use terminal_wrestling_leagu.Animation.Keyframes.{
  at_least_1, closing_phases, phase_of, Places, shaken, kept_apart, pushed, clamp_place,
  place_fighters, cinematic_phases,
}

-- The number is between two others.
record Within (low high : ℕ) (x : ℤ) : Type 0 where
  above : low + neg_part x ≤ pos_part x
  below : pos_part x ≤ high

-- Both sprites, three characters wide, stand in the arena, and the left one ends before the right one.
pub record IsApart (left right : ℕ) : Type 0 where
  pub inside : 1 ≤ left
  pub apart : left + 3 ≤ right
  pub fits : right + 3 ≤ 58

-- Neither fighter advances by more than 8.
record IsNear (phase : CinematicPhase) : Type 0 where
  left : phase.left_advance ≤ 8
  right : phase.right_advance ≤ 8

approach_bound : (action : Action) → approach_distance action ≤ 8
unfolding approach_distance
approach_bound action_none = omega arith
approach_bound action_strike = omega arith
approach_bound action_grapple = omega arith
approach_bound action_block = omega arith
approach_bound action_dodge = omega arith
approach_bound action_counter = omega arith
approach_bound action_feint = omega arith
approach_bound action_break = omega arith
approach_bound (unknown_action n) = omega arith

record IsPlaced (low_left high_left low_right high_right : ℕ) (at : Places) : Type 0 where
  left : Within low_left high_left at.left_x
  right : Within low_right high_right at.right_x

start-IsPlaced :
    (phase : CinematicPhase)
    → IsNear phase
    → IsPlaced 7 15 40 48 (record {
      left_x = pos (7 + phase.left_advance);
      right_x = pos 48 -ℤ pos phase.right_advance;
    })
unfolding ◌-ℤ◌
start-IsPlaced phase h = record {
  left = record { above = omega arith; below = omega (arith, h.left) };
  right = record { above = ground (arith, h.right); below = ground (arith, h.right) };
}

shaken-IsPlaced :
    (shake : Bool) (turn : ℕ) (at : Places)
    → IsPlaced 7 15 40 48 at
    → IsPlaced 6 16 39 49 (shaken shake turn at)
unfolding shaken ◌+ℤ◌ ◌-ℤ◌
shaken-IsPlaced shake turn at h = record {
  left = record {
    above = ground (arith, h.left.above, h.left.below);
    below = ground (arith, h.left.above, h.left.below);
  };
  right = record {
    above = ground (arith, h.right.above, h.right.below);
    below = ground (arith, h.right.above, h.right.below);
  };
}

kept-IsPlaced : (at : Places) → IsPlaced 6 16 39 49 at → IsPlaced 6 26 30 49 (kept_apart at)
unfolding kept_apart ◌+ℤ◌
kept-IsPlaced at h = record {
  left = record {
    above = ground (arith, h.left.above, h.left.below);
    below = ground (arith, h.left.above, h.left.below);
  };
  right = record {
    above = ground (arith, h.right.above, h.right.below);
    below = ground (arith, h.right.above, h.right.below);
  };
}

pushed-IsPlaced :
    (name : Str) (vfx : TurnVfx) (at : Places)
    → IsPlaced 6 26 30 49 at
    → IsPlaced 4 26 30 51 (pushed name vfx at)
unfolding pushed ◌+ℤ◌ ◌-ℤ◌
pushed-IsPlaced name vfx at h = record {
  left = record {
    above = ground (arith, h.left.above, h.left.below);
    below = ground (arith, h.left.above, h.left.below);
  };
  right = record {
    above = ground (arith, h.right.above, h.right.below);
    below = ground (arith, h.right.above, h.right.below);
  };
}

placed-IsApart :
    (at : Places)
    → IsPlaced 4 26 30 51 at
    → IsApart (clamp_place at.left_x) (clamp_place at.right_x)
unfolding clamp_place
placed-IsApart at h = record {
  inside = ground (arith, h.left.above, h.left.below);
  apart = ground (arith, h.left.above, h.left.below, h.right.above, h.right.below);
  fits = ground (arith, h.right.above, h.right.below);
}

near :
    (name pose : Str) (state : MatchState) (left right : ℕ) (shake : Bool)
    → left ≤ 8
    → right ≤ 8
    → IsNear (phase_of state name pose left right shake)
near name pose state left right shake l r = record { left = l; right = r }

back :
    (l r : ℕ) (state : MatchState) (name : Str)
    → l ≤ 8
    → r ≤ 8
    → IsNear (phase_of state name (bytes "recover") (at_least_1 (l / 3)) (at_least_1 (r / 3)) false)
back l r state name hl hr = record { left = ground arith; right = ground arith }

dizzy :
    (l r : ℕ) (state : MatchState)
    → l ≤ 8
    → r ≤ 8
    → IsNear (
        phase_of state
          (bytes "Stunned")
          (bytes "stunned")
          (at_least_1 (l / 4))
          (at_least_1 (r / 4))
          true)
dizzy l r state hl hr = record { left = ground arith; right = ground arith }

closing-IsNear :
    (state : MatchState) (hitstop stunned : Bool) (name : Str) (l r : ℕ)
    → l ≤ 8
    → r ≤ 8
    → All IsNear (closing_phases state hitstop stunned name l r)
unfolding closing_phases
closing-IsNear state true true name l r hl hr =
    (near _ _ state l r true hl hr, (back l r state name hl hr, (dizzy l r state hl hr, tt)))
closing-IsNear state true false name l r hl hr =
    (near _ _ state l r true hl hr, (back l r state name hl hr, tt))
closing-IsNear state false true name l r hl hr =
    (back l r state name hl hr, (dizzy l r state hl hr, tt))
closing-IsNear state false false name l r hl hr = (back l r state name hl hr, tt)

phases-IsNear :
    (state : MatchState) (effects : List Effect) (vfx : TurnVfx)
    → All IsNear (cinematic_phases state effects vfx)
unfolding cinematic_phases
phases-IsNear state effects vfx =
    let l = approach_bound state.p1.last_action in
    let r = approach_bound state.p2.last_action in
    (
      record { left = omega arith; right = omega arith },
      (
        near _ _ state _ _ _ (omega (arith, l)) (omega (arith, r)),
        (near _ _ state _ _ _ l r, closing-IsNear state _ vfx.stunned _ _ _ l r),
      ),
    )

-- Where `renderKeyframe` puts the sprites of a phase.
abbrev pub IsDrawnApart : ℕ → TurnVfx → CinematicPhase → Type 0
IsDrawnApart turn vfx phase =
    let at = place_fighters turn phase vfx in
    IsApart (clamp_place at.left_x) (clamp_place at.right_x)

near-IsDrawnApart :
    (turn : ℕ) (vfx : TurnVfx) (phase : CinematicPhase) → IsNear phase → IsDrawnApart turn vfx phase
unfolding place_fighters
near-IsDrawnApart turn vfx phase h = placed-IsApart _ (
    pushed-IsPlaced phase.name vfx _
      (kept-IsPlaced _ (shaken-IsPlaced phase.shake turn _ (start-IsPlaced phase h))))

phases_drawn :
    (turn : ℕ) (vfx : TurnVfx) (phases : List CinematicPhase)
    → All IsNear phases
    → All (IsDrawnApart turn vfx) phases
phases_drawn turn vfx [] h = tt
phases_drawn turn vfx (phase ∷ phases) h =
    (near-IsDrawnApart turn vfx phase h.0, phases_drawn turn vfx phases h.1)

-- In every phase of a turn, whatever the fighters do and whoever is hit, shaken or pushed back, both
-- fighters are drawn inside the arena, and the left one ends before the right one begins.
pub phases-IsDrawnApart :
    (state : MatchState) (effects : List Effect) (vfx : TurnVfx)
    → All (IsDrawnApart state.turn vfx) (cinematic_phases state effects vfx)
phases-IsDrawnApart state effects vfx =
    phases_drawn state.turn vfx (cinematic_phases state effects vfx)
      (phases-IsNear state effects vfx)
