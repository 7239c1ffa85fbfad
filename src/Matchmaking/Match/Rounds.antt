-- ===== src/Matchmaking/Match/Rounds.antt =====
-- Induction over the turns of a match.
use terminal_wrestling_leagu.Common.{
  true, ℕ, zero, suc, ◌+◌, ◌≡◌, false, inl, inr, List, [], ◌∷◌, ◌++◌, Bool-cases,
}
use terminal_wrestling_leagu.Combat.Types.{TurnInput, TurnResult, ok}
use terminal_wrestling_leagu.Combat.Order.{canonicalize_inputs}
use terminal_wrestling_leagu.Engine.Simulator.{Resolver, step}
use terminal_wrestling_leagu.Matchmaking.Slots.{Engine}
use terminal_wrestling_leagu.Matchmaking.Match.{
  ReplayTurn, TurnEnv, Table, Stop, context_canceled, Round, halted, played, play_round, Run,
  stopped, completed, run_turns,
}

-- `S` of the reason of a halt, `P` of the table after a round that was played; the same of a run.
abbrev pub OnRound {ℓ} : (Stop → Type ℓ) → (Table → Type ℓ) → Round → Type ℓ
OnRound S P (halted reason) = S reason
OnRound S P (played tb) = P tb

abbrev pub OnRun {ℓ} : (Stop → Type ℓ) → (Table → Type ℓ) → Run → Type ℓ
OnRun S P (stopped reason) = S reason
OnRun S P (completed tb) = P tb

-- One turn of the match: `canonical` was stepped, and is in the record with its turn and checksums.
pub record Played (resolver : Resolver) (tb tb' : Table) : Type 0 where
  pub inputs : List TurnInput
  pub canonical : List TurnInput
  pub result : TurnResult
  pub entry : ReplayTurn
  pub accepted : canonicalize_inputs tb.sim.state inputs ≡ ok canonical
  pub stepped : step resolver tb.sim canonical ≡ ok (result, tb'.sim)
  pub logged : tb'.replay_turns ≡ tb.replay_turns ++ (entry ∷ [])
  pub same_turn : entry.turn ≡ result.next.turn
  pub same_inputs : entry.inputs ≡ canonical
  pub same_checksums : entry.checksums ≡ result.checksums

module _ {ℓ} (resolver : Resolver) (engine : Engine) (S : Stop → Type ℓ) (I : Table → Type ℓ)
    (Rel : Table → Table → Type ℓ) where
  step_run :
      (tb tb' : Table) (run : Run)
      → ((last : Table) → Rel tb' last → Rel tb last)
      → OnRun S (Rel tb') run
      → OnRun S (Rel tb) run
  step_run tb tb' (stopped reason) more h = h
  step_run tb tb' (completed last) more h = more last h

  step_round :
      (tb : Table) (round : Round) (next : Table → Run)
      → ((tb' : Table) → I tb' → OnRun S (Rel tb') (next tb'))
      → ((tb' last : Table) → Played resolver tb tb' → Rel tb' last → Rel tb last)
      → OnRound S (λ tb'. I tb' × Played resolver tb tb') round
      → OnRun S (Rel tb) (elim round [ halted reason ↦ stopped reason | played tb' ↦ next tb' ])
  step_round tb (halted reason) next later more h = h
  step_round tb (played tb') next later more h =
      step_run tb tb' (next tb') (λ last r. more tb' last h.1 r) (later tb' h.0)

  -- A relation to the last table that one round extends holds of a run that is completed.
  pub run_turns_keeps :
      (env : ℕ → TurnEnv) (n turn : ℕ) (tb : Table)
      → ((t : ℕ) → (env t).canceled ≡ true → S context_canceled)
      → ((tb : Table) → Rel tb tb)
      → ((tb tb' last : Table) → Played resolver tb tb' → Rel tb' last → Rel tb last)
      → ((t : ℕ) (tb : Table)
          → tb.sim.state.outcome.finished ≡ false
          → I tb
          → OnRound S
              (λ tb'. I tb' × Played resolver tb tb')
              (play_round resolver engine (env t) tb))
      → I tb
      → OnRun S (Rel tb) (run_turns resolver engine env n turn tb)
  unfolding run_turns
  run_turns_keeps env zero turn tb cancel stay more round i = stay tb
  run_turns_keeps env (suc n) turn tb cancel stay more round i =
      elim (Bool-cases (env turn).canceled) [
        | inl gone ↦ simp gone (cancel turn gone)
        | inr here ↦ elim (Bool-cases tb.sim.state.outcome.finished) [
          | inl over ↦ simp (here, over) (stay tb)
          | inr go ↦
              simp (here, go)
                (step_round tb (play_round resolver engine (env turn) tb)
                  (run_turns resolver engine env n (turn + 1))
                  (λ tb' i'. run_turns_keeps env n (turn + 1) tb' cancel stay more round i')
                  (more tb) (round turn tb go i))
        ]
      ]
