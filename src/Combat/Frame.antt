-- ===== src/Combat/Frame.antt =====
-- What a turn leaves alone.
use terminal_wrestling_leagu.Common.{ℕ, ◌+◌, ◌≡◌, refl, arith, List}
use terminal_wrestling_leagu.Combat.Types.{
  FighterState, MatchState, TurnInput, TurnResult, RandomSource, ok,
}
use terminal_wrestling_leagu.Combat.Fighter.{apply_regen, prepare_fighter_turn}
use terminal_wrestling_leagu.Combat.Scene.{
  Scene, log_skip, log_tired, deal_damage, mark_zone, stun, knock_out, advance_position, submit,
  break_hold, gain_momentum, log_resolved, feint, pay, announce, idle, take_position,
}
use terminal_wrestling_leagu.Combat.Turn.{
  Slot, slot1, slot2, Contexts, Progress, enter, leave, exchange, begin_turn, end_turn, turn_result,
  recover, resolve_turn,
}
use terminal_wrestling_leagu.Combat.Steps.{StepRules, act_keeps}
use terminal_wrestling_leagu.Combat.Rounds.{Ensures, Ensures-ok, resolve_turn_keeps}

-- The same player with the same archetype and attributes.
abbrev pub SameFighter : FighterState → FighterState → Type 0
SameFighter f g = (g.player_id ≡ f.player_id) × (g.archetype ≡ f.archetype) × (g.stats ≡ f.stats)

abbrev SameScene : {R : Type 0} → FighterState → FighterState → Scene R → Type 0
SameScene a d sc = SameFighter a sc.actor × SameFighter d sc.defender

SameScene-rules : {R : Type 0} (a d : FighterState) → StepRules (SameScene {R = R} a d)
unfolding log_skip log_tired announce pay idle log_resolved feint break_hold advance_position submit
    knock_out deal_damage mark_zone stun gain_momentum take_position
SameScene-rules a d = record {
  skips = λ sc h. ground arith;
  tires = λ action target sc h. ground arith;
  announces = λ action sc h. ground arith;
  pays = λ cost sc h. ground arith;
  idles = λ sc h. ground arith;
  rolls = λ rng h sc b. ground arith;
  resolves = λ action target chance hit reach sc h. ground arith;
  gains = λ combo action sc h. ground arith;
  feints = λ sc h. ground arith;
  breaks = λ sc h. ground arith;
  attacks = λ action target damage sc h. ground arith;
  marks = λ target sc h. ground arith;
  stuns = λ target chance sc h. ground arith;
  advances = λ sc h. ground arith;
  submits = λ chance sc h. ground arith;
  knocks = λ sc h. ground arith;
}

-- `t` is `s` one turn later, as far as the fighters, the clock and the distance go.
pub record NextTurn (s t : MatchState) : Type 0 where
  pub same1 : SameFighter s.p1 t.p1
  pub same2 : SameFighter s.p2 t.p2
  pub counted : t.turn ≡ s.turn + 1
  pub stayed : t.distance ≡ s.distance

pub begin_turn-NextTurn :
    {R : Type 0} (s : MatchState) (xs : List TurnInput) (rng : R)
    → NextTurn s (begin_turn s xs rng).1.next
unfolding begin_turn prepare_fighter_turn
begin_turn-NextTurn s xs rng = ground arith

module _ {R : Type 0} (source : RandomSource R) where
  pub exchange-NextTurn :
      (s : MatchState) (ctxs : Contexts) (prev_turn : ℕ) (slot : Slot) (input : TurnInput)
      (p : Progress R)
      → NextTurn s p.next
      → NextTurn s (exchange source ctxs prev_turn slot input p).next
  unfolding exchange enter leave
  exchange-NextTurn s ctxs prev_turn slot1 input p h =
      let same =
        act_keeps source (SameScene s.p1 s.p2) (SameScene-rules s.p1 s.p2) ctxs.ctx1 prev_turn input
          (enter slot1 p) (h.same1, h.same2) in
      record { same1 = same.0; same2 = same.1; counted = h.counted; stayed = h.stayed }
  exchange-NextTurn s ctxs prev_turn slot2 input p h =
      let same =
        act_keeps source (SameScene s.p2 s.p1) (SameScene-rules s.p2 s.p1) ctxs.ctx2 prev_turn input
          (enter slot2 p) (h.same2, h.same1) in
      record { same1 = same.1; same2 = same.0; counted = h.counted; stayed = h.stayed }

  end_turn-NextTurn :
      (s : MatchState) (ctxs : Contexts) (p : Progress R)
      → NextTurn s p.next
      → NextTurn s (end_turn source ctxs p).next
  unfolding end_turn apply_regen recover
  end_turn-NextTurn s ctxs p h = ground arith

  turn-NextTurn :
      (s : MatchState) (inputs : List TurnInput) (rng : R)
      → Ensures
          (λ r. NextTurn s r.0.next × (r.0.next.rng_state ≡ source.snapshot r.1))
          (resolve_turn source s inputs rng)
  unfolding turn_result end_turn
  turn-NextTurn s inputs rng =
      resolve_turn_keeps source (λ _ p. NextTurn s p.next)
        (λ r. NextTurn s r.0.next × (r.0.next.rng_state ≡ source.snapshot r.1)) s inputs rng
        (λ _ xs _. begin_turn-NextTurn s xs rng)
        (λ ctxs slot input p _ _ h. exchange-NextTurn s ctxs s.turn slot input p h)
        λ ctxs p h. (end_turn-NextTurn s ctxs p h, refl)

  -- A turn that is resolved advances the clock by one, keeps both fighters' identities, archetypes and
  -- attributes and the distance, and records the state of the random numbers that it leaves.
  pub resolve_turn-NextTurn :
      (s : MatchState) (inputs : List TurnInput) (rng rng' : R) (res : TurnResult)
      → resolve_turn source s inputs rng ≡ ok (res, rng')
      → NextTurn s res.next × (res.next.rng_state ≡ source.snapshot rng')
  resolve_turn-NextTurn s inputs rng rng' res e =
      Ensures-ok (λ r. NextTurn s r.0.next × (r.0.next.rng_state ≡ source.snapshot r.1))
        (turn-NextTurn s inputs rng) e
