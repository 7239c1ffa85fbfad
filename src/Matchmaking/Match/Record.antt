-- ===== src/Matchmaking/Match/Record.antt =====
-- Replaying the record of a match of two players.
use terminal_wrestling_leagu.Common.{
  subst, ℕ, ◌+◌, ◌≡◌, refl, sym, ◌∙◌, ap, arith, true, false, List, [], ◌∷◌, ◌++◌, map,
  append_assoc, append-nil, ◌==◌, if_keeps, Option-cases, inl, inr,
}
use terminal_wrestling_leagu.Common.Text.{is_empty}
use terminal_wrestling_leagu.Combat.Types.{
  MatchState, TurnInput, TurnResult, TurnChecksum, Result, ok, err,
}
use terminal_wrestling_leagu.Combat.Order.{canonicalize_inputs}
use terminal_wrestling_leagu.Engine.Stepping.{step-Stepped, step-NextTurn}
use terminal_wrestling_leagu.Engine.Simulator.{Resolver, standard_resolver, CombatSimulator, step}
use terminal_wrestling_leagu.Replay.{InputEvent, Record, done, replay_events, replay}
use terminal_wrestling_leagu.Matchmaking.Slots.{Engine}
use terminal_wrestling_leagu.Matchmaking.Collect.{Seats, collect_turn_inputs}
use terminal_wrestling_leagu.Matchmaking.Match.{
  ReplayTurn, TurnEnv, Table, Stop, Round, halted, played, record_turn, play_canonical, play_inputs,
  play_round, Run, stopped, completed, run_turns, MatchSetup, open_table, finalize_params,
  FinalizeMatchParams, MatchRun, not_started, left, finalized, finish_match, run_match,
}
use terminal_wrestling_leagu.Matchmaking.Match.Opening.{initial_match-Opening}
use terminal_wrestling_leagu.Matchmaking.Match.Rounds.{OnRound, OnRun, Played, run_turns_keeps}

abbrev pub Anything : Stop → Type 0
Anything reason = Unit

module _ (resolver : Resolver) where
  step-Played :
      (e : TurnEnv) (tb : Table) (seats : Seats) (inputs canonical : List TurnInput)
      (m : Result (TurnResult × CombatSimulator))
      → canonicalize_inputs tb.sim.state inputs ≡ ok canonical
      → step resolver tb.sim canonical ≡ m
      → OnRound Anything
          (Played resolver tb)
          (play_canonical resolver e (record tb { seats = seats }) canonical)
  unfolding play_canonical record_turn
  step-Played e tb seats inputs canonical (err reason) a h = rw (h, OnRound) tt
  step-Played e tb seats inputs canonical (ok (result, sim)) a h =
      rw (h, OnRound)
        (if_keeps (OnRound Anything (Played resolver tb)) e.shown _ _
          (record {
            inputs = inputs;
            canonical = canonical;
            result = result;
            entry = _;
            accepted = a;
            stepped = h;
            logged = refl;
            same_turn = refl;
            same_inputs = refl;
            same_checksums = refl;
          })
          tt)

  inputs-Played :
      (e : TurnEnv) (tb : Table) (seats : Seats) (inputs : List TurnInput)
      (m : Result (List TurnInput))
      → canonicalize_inputs tb.sim.state inputs ≡ m
      → OnRound Anything
          (Played resolver tb)
          (play_inputs resolver e (record tb { seats = seats }) inputs)
  unfolding play_inputs
  inputs-Played e tb seats inputs (err reason) h = rw (h, OnRound) tt
  inputs-Played e tb seats inputs (ok canonical) h =
      rw (h, OnRound)
        (step-Played e tb seats inputs canonical (step resolver tb.sim canonical) h refl)

  pub round-Played :
      (engine : Engine) (e : TurnEnv) (tb : Table)
      → OnRound Anything (Played resolver tb) (play_round resolver engine e tb)
  unfolding play_round
  round-Played engine e tb =
      elim (Option-cases (collect_turn_inputs engine tb.sim.state tb.seats e.signals)) [
        | inl nothing ↦ rw (nothing, OnRound) tt
        | inr (got, h) ↦
            rw (h, OnRound)
              (inputs-Played e tb got.1 got.0 (canonicalize_inputs tb.sim.state got.0) refl)
      ]

-- The record of a match as the replay reads it.
abbrev pub replay_event : ReplayTurn → InputEvent
replay_event t = record { turn = t.turn; relative_ms = t.relative_ms; inputs = t.inputs }

abbrev pub replay_record : FinalizeMatchParams → Record
replay_record p = record {
  seed = p.seed;
  initial = p.initial_state;
  inputs = map replay_event p.turns;
}

abbrev pub turn_sums : List ReplayTurn → List TurnChecksum
turn_sums = map (λ (t : ReplayTurn). t.checksums)

abbrev pub result_sums : List TurnResult → List TurnChecksum
result_sums = map (λ (r : TurnResult). r.checksums)

-- The turns `turns` from `sim` on replay, to results with the recorded checksums.
pub record Replays (sim : CombatSimulator) (turns : List ReplayTurn) : Type 0 where
  pub results : List TurnResult
  pub runs : replay_events standard_resolver sim (map replay_event turns) ≡ done results
  pub sums : result_sums results ≡ turn_sums turns

-- The record of the last table is that of the first and turns that replay.
pub record Recorded (tb last : Table) : Type 0 where
  pub turns : List ReplayTurn
  pub extends : last.replay_turns ≡ tb.replay_turns ++ turns
  pub again : Replays tb.sim turns

Recorded-stay : (tb : Table) → Recorded tb tb
unfolding replay_events
Recorded-stay tb = record {
  turns = [];
  extends = sym (append-nil tb.replay_turns);
  again = record { results = []; runs = refl; sums = refl };
}

Replays-more :
    (tb tb' : Table) (turns : List ReplayTurn) (h : Played standard_resolver tb tb')
    → Replays tb'.sim turns
    → Replays tb.sim (h.entry ∷ turns)
unfolding replay_events
Replays-more tb tb' turns h again =
    let st = step-Stepped tb.sim tb'.sim h.canonical h.result h.stepped in
    let n = step-NextTurn tb.sim tb'.sim h.canonical h.result h.stepped in
    let expected : h.entry.turn ≡ tb.sim.state.turn + 1 =
      h.same_turn ∙ ap (λ (s : MatchState). s.turn) st.reported ∙ n.counted in
    let same : (h.entry.turn == tb.sim.state.turn + 1) ≡ true = ground (arith, expected) in
    let inner : step standard_resolver tb.sim h.entry.inputs ≡ ok (h.result, tb'.sim) =
      rw h.same_inputs h.stepped in
    record {
      results = h.result ∷ again.results;
      runs = simp (inner, same, again.runs) (ground arith);
      sums = simp (h.same_checksums, again.sums) refl;
    }

Recorded-more :
    (tb tb' last : Table) → Played standard_resolver tb tb' → Recorded tb' last → Recorded tb last
Recorded-more tb tb' last h rest = record {
  turns = h.entry ∷ rest.turns;
  extends =
      rest.extends
      ∙ ap (λ ts. ts ++ rest.turns) h.logged
      ∙ append_assoc tb.replay_turns (h.entry ∷ []) rest.turns;
  again = Replays-more tb tb' rest.turns h rest.again;
}

pub OnRound-both :
    (P : Table → Type 0) (round : Round)
    → OnRound Anything P round
    → OnRound Anything (λ tb. Unit × P tb) round
OnRound-both P (halted reason) h = h
OnRound-both P (played tb) h = (tt, h)

run_turns-Recorded :
    (engine : Engine) (env : ℕ → TurnEnv) (n turn : ℕ) (tb : Table)
    → OnRun Anything (Recorded tb) (run_turns standard_resolver engine env n turn tb)
run_turns-Recorded engine env n turn tb =
    run_turns_keeps standard_resolver engine Anything (λ _. Unit) Recorded env n turn tb (λ _ _. tt)
      Recorded-stay Recorded-more
      (λ t tb _ _.
        OnRound-both (Played standard_resolver tb) _
          (round-Played standard_resolver engine (env t) tb))
      tt

abbrev pub OnFinalized : (FinalizeMatchParams → Type 0) → MatchRun → Type 0
OnFinalized P (not_started reason) = Unit
OnFinalized P (left reason) = Unit
OnFinalized P (finalized p) = P p

-- The parameters that were handed over hold a record that replays.
pub record Reproduces (p : FinalizeMatchParams) : Type 0 where
  pub results : List TurnResult
  pub replayed : replay standard_resolver (replay_record p) ≡ done results
  pub checked : result_sums results ≡ turn_sums p.turns

finish-Reproduces :
    (setup : MatchSetup) (initial : MatchState) (run : Run)
    → is_empty initial.p1.player_id ≡ false
    → is_empty initial.p2.player_id ≡ false
    → OnRun Anything (Recorded (open_table setup false initial)) run
    → OnFinalized Reproduces (finish_match setup initial run)
unfolding finish_match finalize_params open_table replay
finish-Reproduces setup initial (stopped reason) h1 h2 h = tt
finish-Reproduces setup initial (completed last) h1 h2 h =
    let turns : last.replay_turns ≡ h.turns = h.extends in
    record {
      results = h.again.results;
      replayed = simp (h1, h2, turns, h.again.runs) refl;
      checked = rw turns h.again.sums;
    }

match-Reproduces :
    (engine : Engine) (env : ℕ → TurnEnv) (setup : MatchSetup)
    → is_empty setup.id1 ≡ false
    → is_empty setup.id2 ≡ false
    → OnFinalized Reproduces (run_match standard_resolver engine env setup)
unfolding run_match
match-Reproduces engine env setup h1 h2 =
    let (initial, e, o) = initial_match-Opening setup in
    rw (e, OnFinalized)
      (finish-Reproduces setup initial _ (rw o.first h1) (rw o.second h2)
        (run_turns-Recorded engine env setup.max_turns 0 (open_table setup false initial)))

-- What was handed over for a match of two players with ids, whatever they did and however the turns
-- went, replays without an error, to turns with the checksums of the record.
pub run_match-Reproduces :
    (engine : Engine) (env : ℕ → TurnEnv) (setup : MatchSetup) (p : FinalizeMatchParams)
    → is_empty setup.id1 ≡ false
    → is_empty setup.id2 ≡ false
    → run_match standard_resolver engine env setup ≡ finalized p
    → Reproduces p
run_match-Reproduces engine env setup p h1 h2 e =
    subst (OnFinalized Reproduces) e (match-Reproduces engine env setup h1 h2)
