-- ===== src/Combat/Ending.antt =====
-- How a match ends: who stands, and who has won.
use terminal_wrestling_leagu.Common.{ℕ, ◌<◌, ◌≡◌, refl, ◌⊎◌, inl, inr, arith, true, false, List}
use terminal_wrestling_leagu.Common.Text.{Str}
use terminal_wrestling_leagu.Combat.Types.{
  Action, action_strike, action_grapple, action_counter, action_feint, action_break, Zone,
  MatchState, TurnInput, TurnResult, RandomSource, ok,
}
use terminal_wrestling_leagu.Combat.Fighter.{FighterTurnContext, apply_regen, prepare_fighter_turn}
use terminal_wrestling_leagu.Combat.Scene.{
  Scene, log_skip, log_tired, deal_damage, mark_zone, stun, knock_out, advance_position, submit,
  break_hold, gain_momentum, log_resolved, feint, pay, announce, idle, take_position,
}
use terminal_wrestling_leagu.Combat.Exchange.{take_effect, act}
use terminal_wrestling_leagu.Combat.Turn.{
  Slot, slot1, slot2, Contexts, Progress, enter, leave, exchange, begin_turn, end_turn, turn_result,
  recover, resolve_turn,
}
use terminal_wrestling_leagu.Combat.Steps.{act_ends, StepRules, act_keeps}
use terminal_wrestling_leagu.Combat.Rounds.{Ensures, Ensures-ok, resolve_turn_keeps}

-- The actor is `id` with `hp` health, which no step changes, and only the actor can have won.
pub record ActorWins {R : Type 0} (id : Str) (hp : ℕ) (sc : Scene R) : Type 0 where
  pub same_id : sc.actor.player_id ≡ id
  pub same_hp : sc.actor.hp ≡ hp
  pub won : sc.outcome.finished ≡ true → sc.outcome.winner_id ≡ id

pub ActorWins-rules : {R : Type 0} (id : Str) (hp : ℕ) → StepRules (ActorWins {R = R} id hp)
unfolding log_skip log_tired announce pay idle log_resolved feint break_hold advance_position submit
    knock_out deal_damage mark_zone stun gain_momentum take_position
ActorWins-rules id hp = record {
  skips = λ sc h. ground arith;
  tires = λ action target sc h. ground arith;
  announces = λ action sc h. ground arith;
  pays = λ cost sc h. ground arith;
  idles = λ sc h. ground arith;
  rolls = λ rng h sc b. ground arith;
  resolves = λ action target chance hit reach sc h. ground arith;
  gains = λ combo action sc h. ground arith;
  feints = λ sc h. ground arith;
  breaks = λ sc h. ground arith;
  attacks = λ action target damage sc h. ground arith;
  marks = λ target sc h. ground arith;
  stuns = λ target chance sc h. ground arith;
  advances = λ sc h. ground arith;
  submits = λ chance sc h. ground arith;
  knocks = λ sc h. ground arith;
}

-- While the match goes on the defender stands.
record Stands {R : Type 0} (sc : Scene R) : Type 0 where
  up : sc.outcome.finished ≡ false → 0 < sc.defender.hp

knock_out-Stands : {R : Type 0} (sc : Scene R) → Stands (knock_out sc)
unfolding knock_out
knock_out-Stands sc = ground arith

module _ {R : Type 0} (source : RandomSource R) where
  take_effect-Stands :
      (action : Action) (target : Zone) (damage : ℕ) (sc : Scene R)
      → 0 < sc.defender.hp
      → Stands (take_effect source action target damage sc)
  unfolding take_effect break_hold take_position
  take_effect-Stands action_strike target damage sc h = knock_out-Stands _
  take_effect-Stands action_grapple target damage sc h = knock_out-Stands _
  take_effect-Stands action_counter target damage sc h = knock_out-Stands _
  take_effect-Stands action_feint target damage sc h = record { up = λ _. h }
  take_effect-Stands action_break target damage sc h = record { up = λ _. ground arith }
  take_effect-Stands _ target damage sc h = record { up = λ _. h }

  act-Stands :
      (ctx : FighterTurnContext) (prev_turn : ℕ) (input : TurnInput) (sc : Scene R)
      → 0 < sc.defender.hp
      → Stands (act source ctx prev_turn input sc)
  unfolding log_skip log_tired announce pay idle log_resolved gain_momentum
  act-Stands =
      act_ends source (λ sc. 0 < sc.defender.hp) Stands
        (record {
          stops = λ sc h. record { up = λ _. h };
          skips = λ sc h. h;
          tires = λ action target sc h. h;
          announces = λ action sc h. h;
          pays = λ cost sc h. h;
          idles = λ sc h. h;
          rolls = λ rng sum sc h. h;
          resolves = λ action target chance hit reach sc h. h;
          gains = λ combo action sc h. ground arith;
          effects = take_effect-Stands;
        })

-- A match that goes on has both fighters standing; one that is over was won by a fighter who stands.
pub record Standing (s : MatchState) : Type 0 where
  pub playing : s.outcome.finished ≡ false → (0 < s.p1.hp) × (0 < s.p2.hp)
  pub ended :
      s.outcome.finished ≡ true
      → ((s.outcome.winner_id ≡ s.p1.player_id) × (0 < s.p1.hp))
        ⊎ ((s.outcome.winner_id ≡ s.p2.player_id) × (0 < s.p2.hp))

begin_turn-Standing :
    {R : Type 0} (s : MatchState) (xs : List TurnInput) (rng : R)
    → Standing s
    → Standing (begin_turn s xs rng).1.next
unfolding begin_turn prepare_fighter_turn
begin_turn-Standing s xs rng h = record { playing = h.playing; ended = h.ended }

module _ {R : Type 0} (source : RandomSource R) where
  exchange-Standing :
      (ctxs : Contexts) (prev_turn : ℕ) (slot : Slot) (input : TurnInput) (p : Progress R)
      → p.next.outcome.finished ≡ false
      → Standing p.next
      → Standing (exchange source ctxs prev_turn slot input p).next
  unfolding exchange enter leave
  exchange-Standing ctxs prev_turn slot1 input p go h =
      let (up1, up2) = h.playing go in
      let wins =
        act_keeps source (ActorWins p.next.p1.player_id p.next.p1.hp) (ActorWins-rules _ _)
          ctxs.ctx1 prev_turn input (enter slot1 p)
          (record { same_id = refl; same_hp = refl; won = λ e. ground arith }) in
      let stands = act-Stands source ctxs.ctx1 prev_turn input (enter slot1 p) up2 in
      record {
        playing = λ e. (rw wins.same_hp up1, stands.up e);
        ended = λ e. inl (rw wins.same_id (wins.won e), rw wins.same_hp up1);
      }
  exchange-Standing ctxs prev_turn slot2 input p go h =
      let (up1, up2) = h.playing go in
      let wins =
        act_keeps source (ActorWins p.next.p2.player_id p.next.p2.hp) (ActorWins-rules _ _)
          ctxs.ctx2 prev_turn input (enter slot2 p)
          (record { same_id = refl; same_hp = refl; won = λ e. ground arith }) in
      let stands = act-Stands source ctxs.ctx2 prev_turn input (enter slot2 p) up1 in
      record {
        playing = λ e. (stands.up e, rw wins.same_hp up2);
        ended = λ e. inr (rw wins.same_id (wins.won e), rw wins.same_hp up2);
      }

  end_turn-Standing :
      (ctxs : Contexts) (p : Progress R) → Standing p.next → Standing (end_turn source ctxs p).next
  unfolding end_turn apply_regen recover
  end_turn-Standing ctxs p h = ground arith

  turn-Standing :
      (s : MatchState) (inputs : List TurnInput) (rng : R)
      → Standing s
      → Ensures (λ r. Standing r.0.next) (resolve_turn source s inputs rng)
  unfolding turn_result
  turn-Standing s inputs rng h =
      resolve_turn_keeps source (λ _ p. Standing p.next) (λ r. Standing r.0.next) s inputs rng
        (λ _ xs _. begin_turn-Standing s xs rng h)
        (λ ctxs slot input p go _ b. exchange-Standing ctxs s.turn slot input p go b)
        (λ ctxs p b. end_turn-Standing ctxs p b)

  -- After a turn of a match in which both fighters stood: if the match goes on then both still stand,
  -- and if it is over then its winner is one of the two fighters, and stands.
  pub resolve_turn-Standing :
      (s : MatchState) (inputs : List TurnInput) (rng rng' : R) (res : TurnResult)
      → Standing s
      → resolve_turn source s inputs rng ≡ ok (res, rng')
      → Standing res.next
  resolve_turn-Standing s inputs rng rng' res h e =
      Ensures-ok (λ r. Standing r.0.next) (turn-Standing s inputs rng h) e
