-- ===== src/Matchmaking/Match/Alive.antt =====
-- A match in which the context is never canceled.
use terminal_wrestling_leagu.Common.{ℕ, ◌≡◌, refl, ◌∙◌, sym, true, false, [], ◌∷◌, All}
use terminal_wrestling_leagu.Common.Text.{str_eq, is_empty}
use terminal_wrestling_leagu.Combat.Types.{MatchState, ok}
use terminal_wrestling_leagu.Combat.Canonical.{canonicalize_accepts, canonicalize_idem}
use terminal_wrestling_leagu.Engine.Simulator.{standard_resolver, new_combat_simulator}
use terminal_wrestling_leagu.Engine.Stepping.{step-NextTurn, step_total}
use terminal_wrestling_leagu.Engine.Rng.{deterministic}
use terminal_wrestling_leagu.Npc.{decide}
use terminal_wrestling_leagu.Npc.Named.{decide-IsNamed}
use terminal_wrestling_leagu.Matchmaking.Slots.{Engine}
use terminal_wrestling_leagu.Matchmaking.Ready.{NamesSelf, IsCalm, collect-Gathered}
use terminal_wrestling_leagu.Matchmaking.Match.{
  TurnEnv, Table, Stop, record_turn, play_canonical, play_inputs, play_round, Run, stopped,
  completed, run_turns, MatchSetup, initial_match, open_table, finalize_params, FinalizeMatchParams,
  finalized, finish_match, run_match,
}
use terminal_wrestling_leagu.Matchmaking.Match.Rounds.{OnRound, OnRun, Played, run_turns_keeps}
use terminal_wrestling_leagu.Matchmaking.Match.Opening.{initial_match-Opening}

-- Nothing in the turn ends the match from outside.
pub record IsCalmTurn (e : TurnEnv) : Type 0 where
  pub stays : e.canceled ≡ false
  pub calm1 : All IsCalm e.signals.signals1
  pub calm2 : All IsCalm e.signals.signals2
  pub shown : e.shown ≡ true

-- The fighters and the seats are those of the two players.
pub record Seated (setup : MatchSetup) (tb : Table) : Type 0 where
  pub first : tb.sim.state.p1.player_id ≡ setup.id1
  pub second : tb.sim.state.p2.player_id ≡ setup.id2
  pub seat1 : tb.seats.seat1.player_id ≡ setup.id1
  pub seat2 : tb.seats.seat2.player_id ≡ setup.id2

abbrev pub Never : Stop → Type 0
Never reason = ⊥

module _ (engine : Engine) (names : NamesSelf engine) (setup : MatchSetup)
    (p1 : is_empty setup.id1 ≡ false) (p2 : is_empty setup.id2 ≡ false)
    (ne : str_eq setup.id1 setup.id2 ≡ false) where
  round_runs :
      (e : TurnEnv) (tb : Table)
      → IsCalmTurn e
      → tb.sim.state.outcome.finished ≡ false
      → Seated setup tb
      → OnRound Never
          (λ tb'. Seated setup tb' × Played standard_resolver tb tb')
          (play_round standard_resolver engine e tb)
  unfolding play_round play_inputs play_canonical record_turn
  round_runs e tb calm go s =
      let g =
        collect-Gathered engine names tb.sim.state tb.seats e.signals (rw s.seat1 p1)
          (rw s.seat2 p2) (rw (s.seat1, s.seat2) ne) calm.calm1 calm.calm2 in
      let (xs, accepted) =
        canonicalize_accepts tb.sim.state g.first g.second (g.first_named ∙ s.seat1 ∙ sym s.first)
          (g.second_named ∙ s.seat2 ∙ sym s.second) (rw s.first p1) (rw s.second p2)
          (rw (s.first, s.second) ne) in
      let (result, sim, stepped) =
        step_total tb.sim xs xs go
          (canonicalize_idem tb.sim.state (g.first ∷ g.second ∷ []) xs accepted) in
      let n = step-NextTurn tb.sim sim xs result stepped in
      rw (g.gathered, OnRound)
        (rw (accepted, OnRound)
          (rw (stepped, OnRound)
            (simp calm.shown (
              record {
                first = n.same1.0 ∙ s.first;
                second = n.same2.0 ∙ s.second;
                seat1 = g.same1 ∙ s.seat1;
                seat2 = g.same2 ∙ s.seat2;
              },
              record {
                inputs = g.first ∷ g.second ∷ [];
                canonical = xs;
                result = result;
                entry = _;
                accepted = accepted;
                stepped = stepped;
                logged = refl;
                same_turn = refl;
                same_inputs = refl;
                same_checksums = refl;
              },
            ))))

  pub run_turns-Never :
      (env : ℕ → TurnEnv) (n turn : ℕ) (tb : Table)
      → ((t : ℕ) → IsCalmTurn (env t))
      → Seated setup tb
      → OnRun Never (λ last. Unit) (run_turns standard_resolver engine env n turn tb)
  run_turns-Never env n turn tb calm s =
      run_turns_keeps standard_resolver engine Never (Seated setup) (λ _ _. Unit) env n turn tb
        (λ t gone. cc ((calm t).stays)) (λ tb. tt) (λ tb tb' last h rest. tt)
        (λ t tb go i. round_runs (env t) tb (calm t) go i) s

pub completed_of :
    (run : Run) → OnRun Never (λ last. Unit) run → (last : Table) × (run ≡ completed last)
completed_of (stopped reason) h = absurd h
completed_of (completed last) h = (last, refl)

finalized_at :
    (engine : Engine) (env : ℕ → TurnEnv) (setup : MatchSetup) (initial : MatchState) (last : Table)
    → initial_match setup ≡ ok initial
    → run_turns standard_resolver engine env setup.max_turns 0 (open_table setup false initial)
      ≡ completed last
    → run_match standard_resolver engine env setup ≡ finalized (finalize_params setup initial last)
unfolding run_match finish_match
finalized_at engine env setup initial last e runs = rw (e, run_match) (simp runs refl)

-- A match of two players with different ids, in which the context is never canceled, is played to its
-- result: neither what the players send or leave out, nor a disconnect, nor the choices of the
-- computer for a player whose seat it holds, nor any fall of the random numbers makes it break off.
pub run_match_finishes :
    (env : ℕ → TurnEnv) (setup : MatchSetup)
    → is_empty setup.id1 ≡ false
    → is_empty setup.id2 ≡ false
    → str_eq setup.id1 setup.id2 ≡ false
    → ((t : ℕ) → IsCalmTurn (env t))
    → (p : FinalizeMatchParams) × (run_match standard_resolver (decide deterministic) env setup
        ≡ finalized p)
unfolding open_table new_combat_simulator
run_match_finishes env setup p1 p2 ne calm =
    let (initial, e, o) = initial_match-Opening setup in
    let (last, runs) =
      completed_of
        (run_turns standard_resolver (decide deterministic) env setup.max_turns 0
          (open_table setup false initial))
        (run_turns-Never (decide deterministic) (decide-IsNamed deterministic) setup p1 p2 ne env
          setup.max_turns 0 (open_table setup false initial) calm
          (record { first = o.first; second = o.second; seat1 = refl; seat2 = refl })) in
    (
      finalize_params setup initial last,
      finalized_at (decide deterministic) env setup initial last e runs,
    )
