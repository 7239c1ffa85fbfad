-- ===== src/Engine/Stepping.antt =====
-- What a step of the simulator with the standard resolver is: one turn of the match, after which the
-- state carries the random numbers that are left.
use terminal_wrestling_leagu.Common.{◌≡◌, refl, List, false}
use terminal_wrestling_leagu.Combat.Types.{TurnInput, TurnResult, Result, ok, err}
use terminal_wrestling_leagu.Combat.Turn.{resolve_turn}
use terminal_wrestling_leagu.Combat.Order.{canonicalize_inputs}
use terminal_wrestling_leagu.Combat.Rounds.{Ensures, Ensures-ok}
use terminal_wrestling_leagu.Combat.Bounds.{MatchFit, resolve_turn-MatchFit}
use terminal_wrestling_leagu.Combat.Frame.{NextTurn, resolve_turn-NextTurn}
use terminal_wrestling_leagu.Combat.Ending.{Standing, resolve_turn-Standing}
use terminal_wrestling_leagu.Combat.Total.{resolve_turn_total}
use terminal_wrestling_leagu.Engine.Rng.{DeterministicRng, deterministic, snapshot}
use terminal_wrestling_leagu.Engine.Simulator.{standard_resolver, CombatSimulator, step}

pub record Stepped (s : CombatSimulator) (xs : List TurnInput) (result : TurnResult)
    (t : CombatSimulator) : Type 0 where
  pub raw : TurnResult
  pub rng : DeterministicRng
  pub resolved : resolve_turn deterministic s.state xs s.rng ≡ ok (raw, rng)
  pub reported : result.next ≡ t.state
  pub next : t.state ≡ record (raw.next) { rng_state = snapshot rng }
  pub drawn : t.rng ≡ rng
  pub sums : result.checksums ≡ raw.checksums

step-Ensures :
    (s : CombatSimulator) (xs : List TurnInput) (m : Result (TurnResult × DeterministicRng))
    → resolve_turn deterministic s.state xs s.rng ≡ m
    → Ensures (λ r. Stepped s xs r.0 r.1) (step standard_resolver s xs)
unfolding step standard_resolver
step-Ensures s xs (err reason) h = rw (h, Ensures) tt
step-Ensures s xs (ok (raw, rng)) h =
    rw (h, Ensures)
      (record {
        raw = raw;
        rng = rng;
        resolved = h;
        reported = refl;
        next = refl;
        drawn = refl;
        sums = refl;
      })

pub step-Stepped :
    (s t : CombatSimulator) (xs : List TurnInput) (result : TurnResult)
    → step standard_resolver s xs ≡ ok (result, t)
    → Stepped s xs result t
step-Stepped s t xs result h =
    Ensures-ok (λ r. Stepped s xs r.0 r.1)
      (step-Ensures s xs (resolve_turn deterministic s.state xs s.rng) refl) h

-- What a turn promises of a state, a step promises of the simulator's.
pub step-NextTurn :
    (s t : CombatSimulator) (xs : List TurnInput) (result : TurnResult)
    → step standard_resolver s xs ≡ ok (result, t)
    → NextTurn s.state t.state
step-NextTurn s t xs result h =
    let st = step-Stepped s t xs result h in
    let n = (resolve_turn-NextTurn deterministic s.state xs s.rng st.rng st.raw st.resolved).0 in
    rw st.next (record { same1 = n.same1; same2 = n.same2; counted = n.counted; stayed = n.stayed })

pub step-Standing :
    (s t : CombatSimulator) (xs : List TurnInput) (result : TurnResult)
    → Standing s.state
    → step standard_resolver s xs ≡ ok (result, t)
    → Standing t.state
step-Standing s t xs result up h =
    let st = step-Stepped s t xs result h in
    let n = resolve_turn-Standing deterministic s.state xs s.rng st.rng st.raw up st.resolved in
    rw st.next (record { playing = n.playing; ended = n.ended })

pub step-MatchFit :
    (s t : CombatSimulator) (xs : List TurnInput) (result : TurnResult)
    → MatchFit s.state
    → step standard_resolver s xs ≡ ok (result, t)
    → MatchFit t.state
step-MatchFit s t xs result fit h =
    let st = step-Stepped s t xs result h in
    let n = resolve_turn-MatchFit deterministic s.state xs s.rng st.rng st.raw fit st.resolved in
    rw st.next n

stepped_ok :
    (s : CombatSimulator) (inputs : List TurnInput) (r : TurnResult × DeterministicRng)
    → resolve_turn deterministic s.state inputs s.rng ≡ ok r
    → (result : TurnResult) × (t : CombatSimulator) × (step standard_resolver s inputs
        ≡ ok (result, t))
unfolding step standard_resolver
stepped_ok s inputs r h =
    let next = record (r.0.next) { rng_state = snapshot r.1 } in
    (
      record (r.0) { next = next },
      record { state = next; rng = r.1 },
      rw (h, step, standard_resolver) refl,
    )

-- A step succeeds whenever the match goes on and its inputs are accepted.
pub step_total :
    (s : CombatSimulator) (inputs xs : List TurnInput)
    → s.state.outcome.finished ≡ false
    → canonicalize_inputs s.state inputs ≡ ok xs
    → (result : TurnResult) × (t : CombatSimulator) × (step standard_resolver s inputs
        ≡ ok (result, t))
step_total s inputs xs go e =
    let (r, h) = resolve_turn_total deterministic s.state inputs xs s.rng go e in
    stepped_ok s inputs r h
