-- ===== src/Matchmaking/Tutorial.antt =====
-- service.go: `RunTutorial`, a match of at most eight turns against the computer, in which the player
-- strikes. `stamp` is the time at which it starts, formatted. The run is stored by the caller.
use terminal_wrestling_leagu.Common.{
  ℕ, zero, suc, ◌+◌, Bool, Option, none, some, [], ◌∷◌, ◌++◌, ltb, if◌then◌else◌,
}
use terminal_wrestling_leagu.Common.Int.{pos, ltb_ℤ}
use terminal_wrestling_leagu.Common.Text.{Str, bytes, str_eq}
use terminal_wrestling_leagu.Combat.Types.{
  MatchState, MatchOutcome, FighterState, TurnInput, action_none, action_strike, action_dodge,
  action_block, action_grapple, zone_head, zone_torso, zone_legs, archetype_balanced,
  archetype_technician, CombatError, Result, ok, err, ◌>>=◌, new_fighter, new_match_state,
}
use terminal_wrestling_leagu.Combat.Order.{canonicalize_inputs}
use terminal_wrestling_leagu.Engine.Rng.{DeterministicRng, new_deterministic_rng, next_int}
use terminal_wrestling_leagu.Engine.Simulator.{
  Resolver, CombatSimulator, new_combat_simulator, step,
}
use terminal_wrestling_leagu.Matchmaking.Seeds.{seed_for_pair, seed_with_salt}

abbrev pub tutorial_max_turns : ℕ
tutorial_max_turns = 8

unfoldable pub tutorial_fighters : MatchState → Str → Option (FighterState × FighterState)
tutorial_fighters state npc_id =
    if str_eq state.p1.player_id npc_id
    then some (state.p1, state.p2)
    else if str_eq state.p2.player_id npc_id
    then some (state.p2, state.p1)
    else none

-- The choice: a random number is drawn only where the first two tests fail.
unfoldable pub choose_tutorial_input :
    Str → FighterState → FighterState → DeterministicRng → TurnInput × DeterministicRng
choose_tutorial_input npc_id self opponent rng =
    let draw = next_int (pos 100) rng in
    let dodge : TurnInput = record {
      player_id = npc_id;
      action = action_dodge;
      target = zone_torso;
      decision_ms = pos 250;
    } in
    if ltb (opponent.hp + 10) self.hp
    then (record dodge { action = action_strike; target = zone_head }, rng)
    else if ltb self.stamina 35
    then (record dodge { action = action_block }, rng)
    else if ltb_ℤ draw.0 (pos 25)
    then (record dodge { action = action_grapple; target = zone_legs }, draw.1)
    else (dodge, draw.1)

unfoldable pub decide_tutorial_npc_input :
    MatchState → Str → DeterministicRng → TurnInput × DeterministicRng
decide_tutorial_npc_input state npc_id rng = elim (tutorial_fighters state npc_id) [
  | none ↦ (
    record { player_id = npc_id; action = action_none; target = zone_torso; decision_ms = pos 0 },
    rng,
  )
  | some (self, opponent) ↦ choose_tutorial_input npc_id self opponent rng
]

pub data TutorialResult : Type 0 where
  tutorial_draw tutorial_win tutorial_loss : TutorialResult

pub data TutorialEnd : Type 0 where
  tutorial_ran : CombatSimulator → TutorialEnd
  tutorial_canceled : TutorialEnd
  tutorial_failed : CombatError → TutorialEnd

-- What the context and the frames of a turn do.
pub record TutorialEnv : Type 0 where
  pub stopped : Bool
  pub shown : Bool

abbrev pub drill : Str → TurnInput
drill id = record {
  player_id = id;
  action = action_strike;
  target = zone_torso;
  decision_ms = pos 250;
}

-- The loop over the turns.
unfoldable pub tutorial_turns :
    Resolver
    → (ℕ → TutorialEnv)
    → Str
    → Str
    → ℕ
    → ℕ
    → CombatSimulator
    → DeterministicRng
    → TutorialEnd
tutorial_turns resolver env id npc_id zero turn sim rng = tutorial_ran sim
tutorial_turns resolver env id npc_id (suc n) turn sim rng =
    let (npc_input, rng') = decide_tutorial_npc_input sim.state npc_id rng in
    let played : TutorialEnd = elim (canonicalize_inputs sim.state (drill id ∷ npc_input ∷ [])) [
      | err reason ↦ tutorial_failed reason
      | ok canonical ↦ elim (step resolver sim canonical) [
        | err reason ↦ tutorial_failed reason
        | ok (result, next) ↦
            let rest = tutorial_turns resolver env id npc_id n (turn + 1) next rng' in
            if (env turn).shown then rest else tutorial_canceled
      ]
    ] in
    if (env turn).stopped
    then tutorial_canceled
    else if sim.state.outcome.finished
    then tutorial_ran sim
    else played

unfoldable pub tutorial_result : Str → Str → MatchOutcome → TutorialResult
tutorial_result id npc_id outcome =
    if outcome.finished
    then if str_eq outcome.winner_id id
      then tutorial_win
      else if str_eq outcome.winner_id npc_id
      then tutorial_loss
      else tutorial_draw
    else tutorial_draw

pub data TutorialRun : Type 0 where
  tutorial_run : TutorialResult → TutorialRun
  tutorial_aborted : TutorialEnd → TutorialRun

unfoldable pub judge : Str → Str → TutorialEnd → TutorialRun
judge id npc_id (tutorial_ran sim) = tutorial_run (tutorial_result id npc_id sim.state.outcome)
judge id npc_id tutorial_canceled = tutorial_aborted tutorial_canceled
judge id npc_id (tutorial_failed reason) = tutorial_aborted (tutorial_failed reason)

unfoldable pub tutorial_opening : Str → Str → Result MatchState
tutorial_opening id npc_id = new_fighter id archetype_balanced >>= λ player.
    new_fighter npc_id archetype_technician >>= λ coach. ok (new_match_state player coach)

unfoldable pub run_tutorial : Resolver → (ℕ → TutorialEnv) → Str → Str → TutorialRun
run_tutorial resolver env stamp id =
    let npc_id = bytes "npc_tutorial_" ++ id in
    let seed = seed_with_salt (seed_for_pair id npc_id stamp) 0xc0ffee in
    let rng = new_deterministic_rng (seed_with_salt seed 0x1234) in
    elim (tutorial_opening id npc_id) [
      | err reason ↦ tutorial_aborted (tutorial_failed reason)
      | ok state ↦ judge id npc_id (
          tutorial_turns resolver env id npc_id tutorial_max_turns 0
            (new_combat_simulator state seed) rng)
    ]
