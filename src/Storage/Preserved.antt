-- ===== src/Storage/Preserved.antt =====
-- internal/matchmaking/service.go, internal/storage/repositories.go and internal/replay/replay.go: a
-- match is played, stored, read back and replayed.
use terminal_wrestling_leagu.Common.{
  ℕ, ◌<◌, ◌^◌, ◌≡◌, refl, sym, subst, ◌∙◌, ap, false, some, List, [], ◌∷◌, ◌++◌, append-nil,
  append_assoc, map, All, arith,
}
use terminal_wrestling_leagu.Common.Answer.{done}
use terminal_wrestling_leagu.Common.Float64.{Float64}
use terminal_wrestling_leagu.Common.Text.{Str, is_empty}
use terminal_wrestling_leagu.Combat.Types.{MatchState, TurnResult, TurnChecksum}
use terminal_wrestling_leagu.Engine.Simulator.{standard_resolver}
use terminal_wrestling_leagu.Engine.Stepping.{step-Stepped, step-NextTurn}
use terminal_wrestling_leagu.Matchmaking.Match.{
  MatchSetup, TurnEnv, Table, ReplayTurn, FinalizeMatchParams, Run, stopped, completed, run_turns,
  open_table, finalize_params, finish_match, finalized, run_match,
}
use terminal_wrestling_leagu.Matchmaking.Match.Opening.{initial_match-Opening}
use terminal_wrestling_leagu.Matchmaking.Match.Rounds.{Played, OnRun, run_turns_keeps}
use terminal_wrestling_leagu.Matchmaking.Match.Record.{
  replay_event, turn_sums, OnFinalized, OnRound-both, round-Played, Reproduces,
  run_match-Reproduces, result_sums,
}
use terminal_wrestling_leagu.Matchmaking.Slots.{Engine}
use terminal_wrestling_leagu.Ranking.{Service}
use terminal_wrestling_leagu.Replay
use terminal_wrestling_leagu.Replay.{InputEvent, Record, replay}
use terminal_wrestling_leagu.Storage.{Time, MatchReplayWrite, MatchReplayTurn, MatchReplay}
use terminal_wrestling_leagu.Storage.Tx.{Driver, Work}
use terminal_wrestling_leagu.Storage.Replays.{Json, turns_of, get_match_replay}
use terminal_wrestling_leagu.Storage.Matches.{FinalizedMatch, finalize_match}
use terminal_wrestling_leagu.Storage.Scores.{finalize_call}
use terminal_wrestling_leagu.Storage.Retold.{
  IsReadableTurn, IsAscending, IsReadable, shown_turn, shown_replay, finalize-get_match_replay,
}

-- The record of the last table is that of the first and turns in order.
record Numbered (tb last : Table) : Type 0 where
  turns : List ReplayTurn
  extends : last.replay_turns ≡ tb.replay_turns ++ turns
  ascending : IsAscending tb.sim.state.turn turns

Numbered-stay : (tb : Table) → Numbered tb tb
Numbered-stay tb = record { turns = []; extends = sym (append-nil tb.replay_turns); ascending = tt }

Numbered-more :
    (tb tb' last : Table) → Played standard_resolver tb tb' → Numbered tb' last → Numbered tb last
Numbered-more tb tb' last h rest =
    let st = step-Stepped tb.sim tb'.sim h.canonical h.result h.stepped in
    let n = step-NextTurn tb.sim tb'.sim h.canonical h.result h.stepped in
    let same : h.entry.turn ≡ tb'.sim.state.turn =
      h.same_turn ∙ ap (λ (s : MatchState). s.turn) st.reported in
    record {
      turns = h.entry ∷ rest.turns;
      extends =
          rest.extends
          ∙ ap (λ ts. ts ++ rest.turns) h.logged
          ∙ append_assoc tb.replay_turns (h.entry ∷ []) rest.turns;
      ascending = (
        omega (arith, same, n.counted),
        subst (λ k. IsAscending k rest.turns) (sym same) rest.ascending,
      );
    }

run_turns-Numbered :
    (engine : Engine) (env : ℕ → TurnEnv) (n turn : ℕ) (tb : Table)
    → OnRun (λ _. Unit) (Numbered tb) (run_turns standard_resolver engine env n turn tb)
run_turns-Numbered engine env n turn tb =
    run_turns_keeps standard_resolver engine (λ _. Unit) (λ _. Unit) Numbered env n turn tb
      (λ _ _. tt) Numbered-stay Numbered-more
      (λ t tb _ _.
        OnRound-both (Played standard_resolver tb) _
          (round-Played standard_resolver engine (env t) tb))
      tt

lower-IsAscending : (n : ℕ) (turns : List ReplayTurn) → IsAscending n turns → IsAscending 0 turns
lower-IsAscending n [] h = tt
lower-IsAscending n (turn ∷ turns) (le, h) = (omega arith, h)

finish-IsAscending :
    (setup : MatchSetup) (initial : MatchState) (run : Run)
    → OnRun (λ _. Unit) (Numbered (open_table setup false initial)) run
    → OnFinalized
        (λ p. (IsAscending 0 p.turns) × (p.seed ≡ setup.seed))
        (finish_match setup initial run)
unfolding finish_match finalize_params open_table
finish-IsAscending setup initial (stopped reason) h = tt
finish-IsAscending setup initial (completed last) h =
    let turns : last.replay_turns ≡ h.turns = h.extends in
    (rw turns (lower-IsAscending _ h.turns h.ascending), refl)

match-IsAscending :
    (engine : Engine) (env : ℕ → TurnEnv) (setup : MatchSetup)
    → OnFinalized
        (λ p. (IsAscending 0 p.turns) × (p.seed ≡ setup.seed))
        (run_match standard_resolver engine env setup)
unfolding run_match
match-IsAscending engine env setup =
    let (initial, e, o) = initial_match-Opening setup in
    rw (e, OnFinalized)
      (finish-IsAscending setup initial _
        (run_turns-Numbered engine env setup.max_turns 0 (open_table setup false initial)))

-- The record that a replay from the database stands for.
abbrev pub record_of : MatchReplay → Record
record_of r = record {
  seed = r.seed;
  initial = r.initial_state;
  inputs =
      map
        (λ (t : MatchReplayTurn). record {
          turn = t.turn;
          relative_ms = t.relative_ms;
          inputs = t.inputs;
        })
        r.turns;
}

abbrev pub stored_sums : MatchReplay → List TurnChecksum
stored_sums r = map (λ (t : MatchReplayTurn). t.checksums) r.turns

-- A replay runs without an error, to turns with its checksums.
abbrev pub IsReplayed : MatchReplay → Type 0
IsReplayed r =
    (results : List TurnResult) × (replay standard_resolver (record_of r) ≡ Replay.done results)
    × (result_sums results ≡ stored_sums r)

shown-events :
    (now : Time) (turns : List ReplayTurn)
    → map
        (λ (t : MatchReplayTurn). record {
          turn = t.turn;
          relative_ms = t.relative_ms;
          inputs = t.inputs;
        })
        (map (shown_turn now) turns)
      ≡ map replay_event turns
shown-events now [] = refl
shown-events now (turn ∷ turns) = ap (replay_event turn ∷◌) (shown-events now turns)

shown-sums :
    (now : Time) (turns : List ReplayTurn)
    → map (λ (t : MatchReplayTurn). t.checksums) (map (shown_turn now) turns) ≡ turn_sums turns
shown-sums now [] = refl
shown-sums now (turn ∷ turns) = ap (turn.checksums ∷◌) (shown-sums now turns)

abbrev replay_of : FinalizeMatchParams → MatchReplayWrite
replay_of p = record { seed = p.seed; initial_state = p.initial_state; turns = p.turns }

-- What was recorded is replayed from the database as it would be from the match.
shown-IsReplayed :
    (id : Str) (now : Time) (p : FinalizeMatchParams)
    → Reproduces p
    → IsReplayed (shown_replay id (replay_of p) now)
shown-IsReplayed id now p r =
    (r.results, rw (shown-events now p.turns) r.replayed, r.checked ∙ sym (shown-sums now p.turns))

-- JSON gives back what the record of a match holds, and its numbers have 64 bits.
abbrev pub IsEncodable : Json → FinalizeMatchParams → Type 0
IsEncodable json p =
    ((text : Str)
      → json.state_text p.initial_state ≡ some text
      → json.read_state text ≡ some p.initial_state)
    × All (IsReadableTurn json) p.turns

module _ {F : Type 0} ⦃fl : Float64 F⦄ (svc : Service F) (json : Json) where
  -- A match of two players with ids ran to its result from a seed of 64 bits, whatever they did; it
  -- was stored without an error under an identifier for which no turns were stored; and JSON gives
  -- back what its record holds. Then `GetMatchReplay`, with a driver that does not fail, returns a
  -- replay that runs without an error, to turns with the checksums that it holds.
  pub run_match-stored-replays :
      (engine : Engine) (env : ℕ → TurnEnv) (setup : MatchSetup) (p : FinalizeMatchParams)
      (id : Str) (started ended : Time) (d d' : Driver) (w : Work F) (m : FinalizedMatch F)
      → is_empty setup.id1 ≡ false
      → is_empty setup.id2 ≡ false
      → setup.seed < 2 ^ 64
      → run_match standard_resolver engine env setup ≡ finalized p
      → is_empty id ≡ false
      → turns_of id w.tables.replay_turns ≡ []
      → IsEncodable json p
      → ((n : ℕ) → d'.fails n ≡ false)
      → (finalize_match svc json (finalize_call id started ended p) d w).0 ≡ done m
      → (r : MatchReplay) × ((get_match_replay json id d'
            ((finalize_match svc json (finalize_call id started ended p) d w).1)).0
          ≡ done r)
        × IsReplayed r
  unfolding finalize_call
  run_match-stored-replays engine env setup p id started ended d d' w m h1 h2 small played named
        fresh (reads, turns) calm ends =
      let (ascending, seed) =
        subst (OnFinalized λ p. (IsAscending 0 p.turns) × (p.seed ≡ setup.seed)) played
          (match-IsAscending engine env setup) in
      let readable : IsReadable json (replay_of p) = (reads, rw seed small, turns, ascending) in
      (
        shown_replay id (replay_of p) m.match_row.created_at,
        finalize-get_match_replay svc json (finalize_call id started ended p) (replay_of p) refl d
            d' w m named fresh readable calm ends,
        shown-IsReplayed id m.match_row.created_at p
            (run_match-Reproduces engine env setup p h1 h2 played),
      )
