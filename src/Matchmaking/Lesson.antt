-- ===== src/Matchmaking/Lesson.antt =====
-- A tutorial that is not canceled comes to its end.
use terminal_wrestling_leagu.Common.{
  ℕ, zero, suc, ◌+◌, ◌≡◌, refl, sym, ap, ◌∙◌, arith, true, false, [], ◌∷◌, ◌++◌, length,
  length-append, Bool-cases, Option-cases, inl, inr,
}
use terminal_wrestling_leagu.Common.Text.{Str, bytes, str_eq, str_eq_iff, is_empty}
use terminal_wrestling_leagu.Combat.Types.{
  MatchState, FighterState, TurnInput, ok, archetype_stats, new_fighter, new_match_state,
}
use terminal_wrestling_leagu.Combat.Canonical.{canonicalize_accepts, canonicalize_idem}
use terminal_wrestling_leagu.Engine.Rng.{DeterministicRng, new_deterministic_rng}
use terminal_wrestling_leagu.Engine.Simulator.{
  CombatSimulator, new_combat_simulator, standard_resolver,
}
use terminal_wrestling_leagu.Engine.Stepping.{step-NextTurn, step_total}
use terminal_wrestling_leagu.Matchmaking.Seeds.{seed_for_pair, seed_with_salt}
use terminal_wrestling_leagu.Matchmaking.Tutorial.{
  tutorial_fighters, choose_tutorial_input, decide_tutorial_npc_input, TutorialResult, TutorialEnd,
  tutorial_ran, tutorial_canceled, tutorial_failed, TutorialEnv, drill, tutorial_turns,
  tutorial_run, judge, tutorial_opening, run_tutorial, tutorial_max_turns,
}

-- Nothing stops the tutorial from outside.
pub record IsUndisturbed (e : TutorialEnv) : Type 0 where
  pub stays : e.stopped ≡ false
  pub seen : e.shown ≡ true

abbrev NamedBy : Str → TurnInput × DeterministicRng → Type 0
NamedBy npc_id p = p.0.player_id ≡ npc_id

choose-NamedBy :
    (npc_id : Str) (self opponent : FighterState) (rng : DeterministicRng)
    → NamedBy npc_id (choose_tutorial_input npc_id self opponent rng)
unfolding choose_tutorial_input
choose-NamedBy npc_id self opponent rng = ground arith

decide-NamedBy :
    (state : MatchState) (npc_id : Str) (rng : DeterministicRng)
    → NamedBy npc_id (decide_tutorial_npc_input state npc_id rng)
unfolding decide_tutorial_npc_input
decide-NamedBy state npc_id rng = elim (Option-cases (tutorial_fighters state npc_id)) [
  | inl e ↦ rw (e, decide_tutorial_npc_input) refl
  | inr (p, e) ↦ rw (e, decide_tutorial_npc_input) (choose-NamedBy npc_id p.0 p.1 rng)
]

-- The fighters are the player and the coach.
record Paired (id npc_id : Str) (s : MatchState) : Type 0 where
  first : s.p1.player_id ≡ id
  second : s.p2.player_id ≡ npc_id

abbrev OnEnd : TutorialEnd → Type 0
OnEnd (tutorial_ran sim) = Unit
OnEnd _ = ⊥

module _ (env : ℕ → TutorialEnv) (id npc_id : Str) (calm : (t : ℕ) → IsUndisturbed (env t))
    (p1 : is_empty id ≡ false) (p2 : is_empty npc_id ≡ false) (ne : str_eq id npc_id ≡ false) where
  turns_end :
      (n turn : ℕ) (sim : CombatSimulator) (rng : DeterministicRng)
      → Paired id npc_id sim.state
      → OnEnd (tutorial_turns standard_resolver env id npc_id n turn sim rng)
  unfolding tutorial_turns
  turns_end zero turn sim rng s = tt
  turns_end (suc n) turn sim rng s = elim (Bool-cases sim.state.outcome.finished) [
    | inl over ↦ simp ((calm turn).stays, over) tt
    | inr go ↦
        let d = decide_tutorial_npc_input sim.state npc_id rng in
        let (xs, accepted) =
          canonicalize_accepts sim.state (drill id) d.0 (sym s.first)
            (decide-NamedBy sim.state npc_id rng ∙ sym s.second) (rw s.first p1) (rw s.second p2)
            (rw (s.first, s.second) ne) in
        let (result, next, stepped) =
          step_total sim xs xs go (canonicalize_idem sim.state (drill id ∷ d.0 ∷ []) xs accepted) in
        let after = step-NextTurn sim next xs result stepped in
        simp ((calm turn).stays, go)
          (rw (accepted, OnEnd)
            (rw (stepped, OnEnd)
              (simp (calm turn).seen (
                turns_end n (turn + 1) next d.1 (record {
                  first = after.same1.0 ∙ s.first;
                  second = after.same2.0 ∙ s.second;
                })))))
  ]

ended_run :
    (id npc_id : Str) (end : TutorialEnd)
    → OnEnd end
    → (r : TutorialResult) × (judge id npc_id end ≡ tutorial_run r)
unfolding judge
ended_run id npc_id (tutorial_ran sim) h = (_, refl)
ended_run id npc_id tutorial_canceled h = absurd h
ended_run id npc_id (tutorial_failed reason) h = absurd h

pub longer_ne : (prefix id : Str) (b : ℕ) → str_eq id ((b ∷ prefix) ++ id) ≡ false
longer_ne prefix id b = elim (Bool-cases (str_eq id ((b ∷ prefix) ++ id))) [
  | inr other ↦ other
  | inl same ↦
      let e : length id ≡ length ((b ∷ prefix) ++ id) = ap length ((str_eq_iff _ _).0 same) in
      absurd (omega (arith, e, length-append prefix id))
]

-- The name under which the computer teaches.
abbrev coach_of : Str → Str
coach_of id = bytes "npc_tutorial_" ++ id

coach_differs : (id : Str) → str_eq id (coach_of id) ≡ false
unfolding bytes
coach_differs id = longer_ne (bytes "pc_tutorial_") id 110

coach_named : (id : Str) → is_empty (coach_of id) ≡ false
unfolding bytes
coach_named id = refl

opening-Paired :
    (id npc_id : Str) (seed : ℕ)
    → (s : MatchState) × (tutorial_opening id npc_id ≡ ok s)
      × Paired id npc_id (new_combat_simulator s seed).state
unfolding tutorial_opening new_fighter archetype_stats new_match_state new_combat_simulator
opening-Paired id npc_id seed = (_, refl, record { first = refl; second = refl })

-- A tutorial of a player with an id, in which the context is never canceled, always comes to a result:
-- a win, a loss or a draw.
pub run_tutorial_finishes :
    (env : ℕ → TutorialEnv) (stamp id : Str)
    → is_empty id ≡ false
    → ((t : ℕ) → IsUndisturbed (env t))
    → (r : TutorialResult) × (run_tutorial standard_resolver env stamp id ≡ tutorial_run r)
unfolding run_tutorial
run_tutorial_finishes env stamp id p calm =
    let npc_id = coach_of id in
    let seed = seed_with_salt (seed_for_pair id npc_id stamp) 0xc0ffee in
    let rng = new_deterministic_rng (seed_with_salt seed 0x1234) in
    let (s, e, paired) = opening-Paired id npc_id seed in
    let (r, judged) = ended_run id npc_id _ (
      turns_end env id npc_id calm p (coach_named id) (coach_differs id) tutorial_max_turns 0
        (new_combat_simulator s seed) rng paired) in
    (r, rw (e, run_tutorial) judged)
