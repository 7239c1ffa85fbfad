-- ===== src/Tests/Machines.antt =====
-- The random numbers, the choices of the computer and one exchange, at concrete states.
use terminal_wrestling_leagu.Common.{◌≡◌, refl, arith, true, List, [], ◌∷◌, some}
use terminal_wrestling_leagu.Common.Int.{pos, ◌+ℤ◌, ltb_ℤ}
use terminal_wrestling_leagu.Common.Text.{str_eq}
use terminal_wrestling_leagu.Combat.Types.{TurnInput, Zone, zone_head, zone_torso}
use terminal_wrestling_leagu.Combat.Turn.{
  slot2, Contexts, Progress, begin_turn, exchange, actor_of, fighters_by_id,
}
use terminal_wrestling_leagu.Combat.Position.{PositionMove, exchange-PositionMove}
use terminal_wrestling_leagu.Engine.Rng.{DeterministicRng, deterministic, next_int}
use terminal_wrestling_leagu.Engine.Range.{IsLive, next_int-IsLive, next_int_range}
use terminal_wrestling_leagu.Npc.Choice.{Weight, choose, total_weight}
use terminal_wrestling_leagu.Npc.Interval.{ChosenBy, InRange, choose-ChosenBy}
use terminal_wrestling_leagu.Npc.{decided, decide}
use terminal_wrestling_leagu.Npc.Moves.{SoundDecision, decide_sound}
use terminal_wrestling_leagu.Tests.Combat.{opening, ordered, strike, rng}

next_int-IsLive_example : IsLive (next_int (pos 100) (record { state = 7 })).1
next_int-IsLive_example =
    next_int-IsLive (pos 100) (record { state = 7 })
      (record { in_u64 = omega arith; nonzero = omega arith })

abbrev start : Contexts × Progress DeterministicRng
start = begin_turn opening ordered rng

exchange-PositionMove_example :
    PositionMove start.1.next.combat_state
      (exchange deterministic start.0 0 slot2 strike start.1).next.combat_state
exchange-PositionMove_example = exchange-PositionMove deterministic start.0 0 slot2 strike start.1

in_range : InRange deterministic
in_range n r h = let (lo, hi, _) = next_int_range n r in (lo, hi h)

abbrev table : List (Weight Zone)
table =
    record { item = zone_head; weight = pos 3 } ∷ record { item = zone_torso; weight = pos 5 } ∷ []

positive : ltb_ℤ (pos 0) (total_weight table) ≡ true
unfolding total_weight ◌+ℤ◌
positive = refl

choose-ChosenBy_example :
    ChosenBy table
      (next_int (total_weight table) rng).0
      (choose deterministic zone_torso table rng).0
    × ((choose deterministic zone_torso table rng).1 ≡ (next_int (total_weight table) rng).1)
choose-ChosenBy_example = choose-ChosenBy deterministic zone_torso table rng in_range positive

seated : fighters_by_id opening (97 ∷ []) ≡ some slot2
unfolding fighters_by_id str_eq
seated = refl

decide_sound_example :
    (x : TurnInput) × (rng' : DeterministicRng) × (decide deterministic opening (97 ∷ []) rng
      ≡ decided x rng')
    × SoundDecision (actor_of slot2 opening) rng x rng'
decide_sound_example = decide_sound deterministic opening (97 ∷ []) slot2 rng refl seated
