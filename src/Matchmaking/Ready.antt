-- ===== src/Matchmaking/Ready.antt =====
-- The inputs of a turn in which nothing is canceled.
use terminal_wrestling_leagu.Common.{
  ◌≡◌, refl, ◌∙◌, arith, Bool, false, Option, some, List, [], ◌∷◌, All, if_keeps, if◌then◌else◌,
  sym,
}
use terminal_wrestling_leagu.Common.Text.{Str, str_eq, is_empty, str_eq_refl, str_eq_comm}
use terminal_wrestling_leagu.Combat.Types.{MatchState, TurnInput}
use terminal_wrestling_leagu.Combat.Turn.{Slot, slot1, slot2}
use terminal_wrestling_leagu.Engine.Rng.{DeterministicRng}
use terminal_wrestling_leagu.Npc.{Decision, decided, refused}
use terminal_wrestling_leagu.Npc.Named.{IsNamed}
use terminal_wrestling_leagu.Matchmaking.Slots.{
  MatchSlot, TurnInputResult, turn_input_action, turn_input_timeout, turn_input_disconnect,
  turn_input_canceled, turn_input_npc, Engine, Signal, canceled, closed, expired, quit, ignored,
  action_command, idle_input, normalize_turn_input, decide_npc_input, wait_for_turn_input, collect,
  take_over, resolve_timeout, resolve_turn_input, Takeover,
}
use terminal_wrestling_leagu.Matchmaking.Collect.{
  Seats, seat_of, put_seat, TurnSignals, find_slot_by_player_id, find_result, index_results,
  order_turn_results_by_slot, is_canceled, resolve_result, resolve_results, collect_turn_inputs,
}

-- Every decision of the engine carries the id that it was asked for.
abbrev pub NamesSelf : Engine → Type 0
NamesSelf engine =
    (state : MatchState) (id : Str) (rng : DeterministicRng) → IsNamed id (engine state id rng)

-- Any signal but the end of the context.
abbrev pub IsCalm : Signal → Type 0
IsCalm canceled = ⊥
IsCalm _ = Unit

pub record Delivers (id : Str) (r : TurnInputResult) : Type 0 where
  pub owner : r.player_id ≡ id
  pub input_owner : r.input.player_id ≡ id
  pub live : is_canceled r.status ≡ false

wait-Delivers :
    (id : Str) (signals : List Signal)
    → All IsCalm signals
    → Delivers id (wait_for_turn_input id signals)
unfolding wait_for_turn_input idle_input
wait-Delivers id [] h = record { owner = refl; input_owner = refl; live = refl }
wait-Delivers id (canceled ∷ signals) h = absurd h.0
wait-Delivers id (closed ∷ signals) h = record { owner = refl; input_owner = refl; live = refl }
wait-Delivers id (expired ∷ signals) h = record { owner = refl; input_owner = refl; live = refl }
wait-Delivers id (quit ∷ signals) h = record { owner = refl; input_owner = refl; live = refl }
wait-Delivers id (ignored ∷ signals) h = wait-Delivers id signals h.1
wait-Delivers id (action_command action target elapsed ∷ signals) h = record {
  owner = refl;
  input_owner = refl;
  live = refl;
}

normalize-named :
    (x : TurnInput) (id : Str) → x.player_id ≡ id → (normalize_turn_input x id).player_id ≡ id
unfolding normalize_turn_input
normalize-named x id h = if_keeps (λ (k : Str). k ≡ id) _ _ _ refl h

decision-named :
    (engine : Engine) (state : MatchState) (id : Str) (rng : DeterministicRng)
    (d : Decision DeterministicRng)
    → engine state id rng ≡ d
    → IsNamed id d
    → (decide_npc_input engine state id rng).0.player_id ≡ id
unfolding decide_npc_input idle_input
decision-named engine state id rng (decided x rng') e h =
    rw (e, decide_npc_input) (normalize-named x id h)
decision-named engine state id rng (refused reason) e h = rw (e, decide_npc_input) refl

module _ (engine : Engine) (names : NamesSelf engine) (state : MatchState) where
  decide_npc_input-named :
      (id : Str) (rng : DeterministicRng) → (decide_npc_input engine state id rng).0.player_id ≡ id
  decide_npc_input-named id rng = decision-named engine state id rng _ refl (names state id rng)

  record Seated (slot : MatchSlot) (out : TurnInputResult × MatchSlot) : Type 0 where
    result : Delivers slot.player_id out.0
    same : out.1.player_id ≡ slot.player_id

  collect-Seated :
      (slot : MatchSlot) (signals : List Signal)
      → All IsCalm signals
      → Seated slot (collect engine state slot signals)
  unfolding collect
  collect-Seated slot signals h =
      if_keeps (Seated slot) slot.npc_controlled _ _
        (record {
          result = record {
            owner = refl;
            input_owner = decide_npc_input-named slot.player_id slot.npc_rng;
            live = refl;
          };
          same = refl;
        })
        (record { result = wait-Delivers slot.player_id signals h; same = refl })

  record Input (slot : MatchSlot) (out : TurnInput × Option Takeover × MatchSlot) : Type 0 where
    named : out.0.player_id ≡ slot.player_id
    same : out.2.player_id ≡ slot.player_id

  resolve_turn_input-Input :
      (slot : MatchSlot) (result : TurnInputResult)
      → Delivers slot.player_id result
      → Input slot (resolve_turn_input engine state slot result)
  unfolding resolve_turn_input resolve_timeout take_over idle_input
  resolve_turn_input-Input slot result d =
      let own = normalize-named result.input slot.player_id d.input_owner in
      let npc = decide_npc_input-named slot.player_id slot.npc_rng in
      elim result.status
        as (λ st.
          Input slot (resolve_turn_input engine state slot (record result { status = st }))) [
            | turn_input_npc ↦ record { named = own; same = refl }
            | turn_input_action ↦ record { named = own; same = refl }
            | turn_input_timeout ↦
                if_keeps (Input slot) _ _ _ (record { named = npc; same = refl })
                  (record { named = own; same = refl })
            | turn_input_disconnect ↦ record { named = npc; same = refl }
            | turn_input_canceled ↦ record { named = refl; same = refl }
          ]

-- Two results of the two seats are put in the order of the seats, however they arrived.
order-delivered :
    (seats : Seats) (r1 r2 : TurnInputResult) (swapped : Bool)
    → Delivers seats.seat1.player_id r1
    → Delivers seats.seat2.player_id r2
    → is_empty seats.seat1.player_id ≡ false
    → is_empty seats.seat2.player_id ≡ false
    → str_eq seats.seat1.player_id seats.seat2.player_id ≡ false
    → order_turn_results_by_slot seats (if swapped then r2 ∷ r1 ∷ [] else r1 ∷ r2 ∷ [])
      ≡ some (r1, r2)
unfolding order_turn_results_by_slot index_results find_result
order-delivered seats r1 r2 swapped d1 d2 p1 p2 ne = ground (
  arith,
  d1.owner,
  d2.owner,
  str_eq_refl seats.seat1.player_id,
  str_eq_refl seats.seat2.player_id,
  str_eq_comm seats.seat1.player_id seats.seat2.player_id,
)

find_first :
    (seats : Seats) (id : Str)
    → seats.seat1.player_id ≡ id
    → find_slot_by_player_id id seats ≡ some slot1
unfolding find_slot_by_player_id
find_first seats id e = ground (arith, e, str_eq_refl id)

find_second :
    (seats : Seats) (id : Str)
    → seats.seat2.player_id ≡ id
    → str_eq seats.seat1.player_id id ≡ false
    → find_slot_by_player_id id seats ≡ some slot2
unfolding find_slot_by_player_id
find_second seats id e ne = ground (arith, e, str_eq_refl id)

-- Both inputs are there, in the order of the seats, and the seats keep their players.
pub record Gathered (seats : Seats) (o : Option (List TurnInput × Seats)) : Type 0 where
  pub first : TurnInput
  pub second : TurnInput
  pub after : Seats
  pub gathered : o ≡ some (first ∷ second ∷ [], after)
  pub first_named : first.player_id ≡ seats.seat1.player_id
  pub second_named : second.player_id ≡ seats.seat2.player_id
  pub same1 : after.seat1.player_id ≡ seats.seat1.player_id
  pub same2 : after.seat2.player_id ≡ seats.seat2.player_id

module _ (engine : Engine) (names : NamesSelf engine) (state : MatchState) where
  resolve_result_at :
      (seats : Seats) (result : TurnInputResult) (slot : Slot)
      → find_slot_by_player_id result.player_id seats ≡ some slot
      → resolve_result engine state seats result
        ≡ some (
          (resolve_turn_input engine state (seat_of slot seats) result).0,
          (resolve_turn_input engine state (seat_of slot seats) result).1,
          put_seat slot (resolve_turn_input engine state (seat_of slot seats) result).2 seats,
        )
  unfolding resolve_result
  resolve_result_at seats result slot h = rw (h, resolve_result) refl

  resolve-Gathered :
      (seats : Seats) (r1 r2 : TurnInputResult)
      → Delivers seats.seat1.player_id r1
      → Delivers seats.seat2.player_id r2
      → str_eq seats.seat1.player_id seats.seat2.player_id ≡ false
      → Gathered seats (resolve_results engine state seats (r1, r2))
  unfolding resolve_results
  resolve-Gathered seats r1 r2 d1 d2 ne =
      let out1 = resolve_turn_input engine state seats.seat1 r1 in
      let out2 = resolve_turn_input engine state seats.seat2 r2 in
      let in1 = resolve_turn_input-Input engine names state seats.seat1 r1 d1 in
      let in2 = resolve_turn_input-Input engine names state seats.seat2 r2 d2 in
      let seats1 : Seats = record seats { seat1 = out1.2 } in
      record {
        first = out1.0;
        second = out2.0;
        after = record seats1 { seat2 = out2.2 };
        gathered =
            simp
              (
                resolve_result_at seats r1 slot1 (find_first seats r1.player_id (sym d1.owner)),
                resolve_result_at seats1 r2 slot2
                    (find_second seats1 r2.player_id (sym d2.owner) (rw (in1.same, d2.owner) ne)),
              )
              refl;
        first_named = in1.named;
        second_named = in2.named;
        same1 = in1.same;
        same2 = in2.same;
      }

  -- The seats after both have put their results into the channel.
  abbrev waited : Seats → TurnSignals → Seats
  waited seats env = record {
    seat1 = (collect engine state seats.seat1 env.signals1).1;
    seat2 = (collect engine state seats.seat2 env.signals2).1;
  }

  collected_at :
      (seats : Seats) (env : TurnSignals) (o : Option (List TurnInput × Seats))
      → Delivers
          (waited seats env).seat1.player_id
          (collect engine state seats.seat1 env.signals1).0
      → Delivers
          (waited seats env).seat2.player_id
          (collect engine state seats.seat2 env.signals2).0
      → is_empty (waited seats env).seat1.player_id ≡ false
      → is_empty (waited seats env).seat2.player_id ≡ false
      → str_eq (waited seats env).seat1.player_id (waited seats env).seat2.player_id ≡ false
      → resolve_results engine state (waited seats env) (
        (collect engine state seats.seat1 env.signals1).0,
        (collect engine state seats.seat2 env.signals2).0,
      )
        ≡ o
      → collect_turn_inputs engine state seats env ≡ o
  unfolding collect_turn_inputs
  collected_at seats env o d1 d2 p1 p2 ne h =
      simp
        (d1.live, d2.live, order-delivered (waited seats env) _ _ env.second_first d1 d2 p1 p2 ne) h

  -- When no signal ends the context, both inputs of a turn are collected, each from its seat's player.
  pub collect-Gathered :
      (seats : Seats) (env : TurnSignals)
      → is_empty seats.seat1.player_id ≡ false
      → is_empty seats.seat2.player_id ≡ false
      → str_eq seats.seat1.player_id seats.seat2.player_id ≡ false
      → All IsCalm env.signals1
      → All IsCalm env.signals2
      → Gathered seats (collect_turn_inputs engine state seats env)
  collect-Gathered seats env p1 p2 ne calm1 calm2 =
      let c1 = collect-Seated engine names state seats.seat1 env.signals1 calm1 in
      let c2 = collect-Seated engine names state seats.seat2 env.signals2 calm2 in
      let r1 = (collect engine state seats.seat1 env.signals1).0 in
      let r2 = (collect engine state seats.seat2 env.signals2).0 in
      let seats' = waited seats env in
      let d1 : Delivers seats'.seat1.player_id r1 = rw c1.same c1.result in
      let d2 : Delivers seats'.seat2.player_id r2 = rw c2.same c2.result in
      let ne' : str_eq seats'.seat1.player_id seats'.seat2.player_id ≡ false =
        rw (c1.same, c2.same) ne in
      let g = resolve-Gathered seats' r1 r2 d1 d2 ne' in
      record {
        first = g.first;
        second = g.second;
        after = g.after;
        gathered = collected_at seats env _ d1 d2 (rw c1.same p1) (rw c2.same p2) ne' g.gathered;
        first_named = g.first_named ∙ c1.same;
        second_named = g.second_named ∙ c2.same;
        same1 = g.same1 ∙ c1.same;
        same2 = g.same2 ∙ c2.same;
      }
