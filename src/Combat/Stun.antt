-- ===== src/Combat/Stun.antt =====
-- A fighter who is stunned when a turn begins does not act in it.
use terminal_wrestling_leagu.Common.{ℕ, ◌<◌, ◌≡◌, refl, ◌∙◌, arith, true, false, List}
use terminal_wrestling_leagu.Common.Text.{Str}
use terminal_wrestling_leagu.Combat.Types.{MatchState, TurnInput, TurnResult, RandomSource, ok}
use terminal_wrestling_leagu.Combat.Fighter.{FighterTurnContext, apply_regen, prepare_fighter_turn}
use terminal_wrestling_leagu.Combat.Scene.{Scene, log_skip}
use terminal_wrestling_leagu.Combat.Exchange.{act}
use terminal_wrestling_leagu.Combat.Turn.{
  Slot, slot1, slot2, actor_of, defender_of, Contexts, context_of, Progress, enter, leave, exchange,
  begin_turn, end_turn, turn_result, recover, resolve_turn,
}
use terminal_wrestling_leagu.Combat.Steps.{act_keeps}
use terminal_wrestling_leagu.Combat.Rounds.{Ensures, Ensures-ok, resolve_turn_keeps}
use terminal_wrestling_leagu.Combat.Ending.{ActorWins, ActorWins-rules}

-- The fighter in the slot is stunned, the other, `id`, has kept `hp` health, and only `id` can have won.
record Harmless {R : Type 0} (slot : Slot) (id : Str) (hp : ℕ) (ctxs : Contexts) (p : Progress R)
    : Type 0 where
  stunned : (context_of slot ctxs).stunned_at_turn_start ≡ true
  same_id : (defender_of slot p.next).player_id ≡ id
  unhurt : (defender_of slot p.next).hp ≡ hp
  won : p.next.outcome.finished ≡ true → p.next.outcome.winner_id ≡ id

-- What a stunned fighter's opponent has after the turn.
abbrev Untouched : Slot → MatchState → MatchState → Type 0
Untouched slot s t =
    ((defender_of slot t).hp ≡ (defender_of slot s).hp)
    × (t.outcome.finished ≡ true → t.outcome.winner_id ≡ (defender_of slot s).player_id)

module _ {R : Type 0} (source : RandomSource R) where
  act_stunned :
      (ctx : FighterTurnContext) (prev_turn : ℕ) (input : TurnInput) (sc : Scene R)
      → ctx.stunned_at_turn_start ≡ true
      → ((act source ctx prev_turn input sc).defender ≡ sc.defender)
        × ((act source ctx prev_turn input sc).outcome ≡ sc.outcome)
  unfolding act log_skip
  act_stunned ctx prev_turn input sc h = (rw h refl, rw h refl)

  act_actor :
      (ctx : FighterTurnContext) (prev_turn : ℕ) (input : TurnInput) (sc : Scene R)
      → sc.outcome.finished ≡ false
      → ActorWins sc.actor.player_id sc.actor.hp (act source ctx prev_turn input sc)
  act_actor ctx prev_turn input sc go =
      act_keeps source (ActorWins sc.actor.player_id sc.actor.hp) (ActorWins-rules _ _) ctx
        prev_turn input sc (record { same_id = refl; same_hp = refl; won = λ e. ground arith })

  exchange-Harmless :
      (slot : Slot) (id : Str) (hp : ℕ) (ctxs : Contexts) (prev_turn : ℕ) (mover : Slot)
      (input : TurnInput) (p : Progress R)
      → p.next.outcome.finished ≡ false
      → Harmless slot id hp ctxs p
      → Harmless slot id hp ctxs (exchange source ctxs prev_turn mover input p)
  unfolding exchange enter leave
  exchange-Harmless slot1 id hp ctxs prev_turn slot1 input p go h =
      let still = act_stunned ctxs.ctx1 prev_turn input (enter slot1 p) h.stunned in
      record {
        stunned = h.stunned;
        same_id = rw still.0 h.same_id;
        unhurt = rw still.0 h.unhurt;
        won = rw still.1 h.won;
      }
  exchange-Harmless slot1 id hp ctxs prev_turn slot2 input p go h =
      let wins = act_actor ctxs.ctx2 prev_turn input (enter slot2 p) go in
      record {
        stunned = h.stunned;
        same_id = wins.same_id ∙ h.same_id;
        unhurt = wins.same_hp ∙ h.unhurt;
        won = λ e. wins.won e ∙ h.same_id;
      }
  exchange-Harmless slot2 id hp ctxs prev_turn slot2 input p go h =
      let still = act_stunned ctxs.ctx2 prev_turn input (enter slot2 p) h.stunned in
      record {
        stunned = h.stunned;
        same_id = rw still.0 h.same_id;
        unhurt = rw still.0 h.unhurt;
        won = rw still.1 h.won;
      }
  exchange-Harmless slot2 id hp ctxs prev_turn slot1 input p go h =
      let wins = act_actor ctxs.ctx1 prev_turn input (enter slot1 p) go in
      record {
        stunned = h.stunned;
        same_id = wins.same_id ∙ h.same_id;
        unhurt = wins.same_hp ∙ h.unhurt;
        won = λ e. wins.won e ∙ h.same_id;
      }

  begin_turn-Harmless :
      (slot : Slot) (s : MatchState) (xs : List TurnInput) (rng : R)
      → 0 < (actor_of slot s).effects.stunned_for
      → s.outcome.finished ≡ false
      → Harmless slot
          (defender_of slot s).player_id
          (defender_of slot s).hp
          (begin_turn s xs rng).0
          (begin_turn s xs rng).1
  unfolding begin_turn prepare_fighter_turn
  begin_turn-Harmless slot1 s xs rng h go = ground arith
  begin_turn-Harmless slot2 s xs rng h go = ground arith

  end_turn-Untouched :
      (slot : Slot) (s : MatchState) (ctxs : Contexts) (p : Progress R)
      → Harmless slot (defender_of slot s).player_id (defender_of slot s).hp ctxs p
      → Untouched slot s (end_turn source ctxs p).next
  unfolding end_turn apply_regen recover
  end_turn-Untouched slot1 s ctxs p h = ground arith
  end_turn-Untouched slot2 s ctxs p h = ground arith

  turn-Untouched :
      (slot : Slot) (s : MatchState) (inputs : List TurnInput) (rng : R)
      → 0 < (actor_of slot s).effects.stunned_for
      → Ensures (λ r. Untouched slot s r.0.next) (resolve_turn source s inputs rng)
  unfolding turn_result
  turn-Untouched slot s inputs rng h =
      resolve_turn_keeps source
        (Harmless slot (defender_of slot s).player_id (defender_of slot s).hp)
        (λ r. Untouched slot s r.0.next) s inputs rng
        (λ go xs _. begin_turn-Harmless slot s xs rng h go)
        (λ ctxs mover input p go _ b. exchange-Harmless slot _ _ ctxs s.turn mover input p go b)
        (λ ctxs p b. end_turn-Untouched slot s ctxs p b)

  -- A fighter who is stunned when the turn begins neither hurts the opponent in it nor wins by it:
  -- the opponent's health is as before, and only the opponent can be the winner.
  pub stunned_cannot_act :
      (slot : Slot) (s : MatchState) (inputs : List TurnInput) (rng rng' : R) (res : TurnResult)
      → 0 < (actor_of slot s).effects.stunned_for
      → resolve_turn source s inputs rng ≡ ok (res, rng')
      → ((defender_of slot res.next).hp ≡ (defender_of slot s).hp)
        × (res.next.outcome.finished ≡ true
            → res.next.outcome.winner_id ≡ (defender_of slot s).player_id)
  stunned_cannot_act slot s inputs rng rng' res h e =
      Ensures-ok (λ r. Untouched slot s r.0.next) (turn-Untouched slot s inputs rng h) e
