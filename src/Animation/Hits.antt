-- ===== src/Animation/Hits.antt =====
-- What `deriveTurnVFX` and `summarizeTurn` count.
use terminal_wrestling_leagu.Common.{
  ℕ, ◌+◌, ◌≡◌, arith, true, false, ◌&&◌, List, [], ◌∷◌, All, if◌then◌else◌,
}
use terminal_wrestling_leagu.Common.Int.{pos, leb_ℤ, pos_part}
use terminal_wrestling_leagu.Combat.Types.{
  Event, EventType, event_turn_started, event_action_resolved, event_damage_applied,
  event_status_applied, event_state_changed, event_match_finished, event_stamina_restored,
  MatchState, TurnResult,
}
use terminal_wrestling_leagu.Animation.{Effect, TurnVfx}
use terminal_wrestling_leagu.Animation.Effects.{
  mark_target, note_vfx, note_turn, no_vfx, derive_turn_vfx,
}
use terminal_wrestling_leagu.Animation.Captions.{Blows, note_blow, count_blows}
use terminal_wrestling_leagu.Animation.Inferred.{is_damage}

-- Damage that was done with success is positive.
abbrev pub IsEarnest : Event → Type 0
IsEarnest e = (is_damage e.kind && e.success) ≡ true → leb_ℤ e.value (pos 0) ≡ false

-- How many of the events are damage that was done with success, and how much damage that is.
abbrev pub hits_of : List Event → ℕ
hits_of [] = 0
hits_of (e ∷ events) = (if is_damage e.kind && e.success then 1 else 0) + hits_of events

abbrev pub damage_of : List Event → ℕ
damage_of [] = 0
damage_of (e ∷ events) =
    (if is_damage e.kind && e.success then pos_part e.value else 0) + damage_of events

-- What an event of the given kind adds to the two numbers.
record Adds (k : EventType) (e : Event) (hits damage hits' damage' : ℕ) : Type 0 where
  hit : hits' ≡ hits + (if is_damage k && e.success then 1 else 0)
  hurt : damage' ≡ damage + (if is_damage k && e.success then pos_part e.value else 0)

note_vfx-Adds :
    (k : EventType) (state : MatchState) (e : Event) (vfx : TurnVfx)
    → ((is_damage k && e.success) ≡ true → leb_ℤ e.value (pos 0) ≡ false)
    → Adds k e vfx.hit_count vfx.total_damage
        (note_vfx k state e vfx).hit_count
        (note_vfx k state e vfx).total_damage
unfolding note_vfx mark_target
note_vfx-Adds event_damage_applied state e vfx p = record {
  hit = ground (arith, p);
  hurt = ground (arith, p);
}
note_vfx-Adds event_status_applied state e vfx p = record {
  hit = ground arith;
  hurt = ground arith;
}
note_vfx-Adds event_turn_started state e vfx p = record { hit = omega arith; hurt = omega arith }
note_vfx-Adds event_action_resolved state e vfx p = record { hit = omega arith; hurt = omega arith }
note_vfx-Adds event_state_changed state e vfx p = record { hit = omega arith; hurt = omega arith }
note_vfx-Adds event_match_finished state e vfx p = record { hit = omega arith; hurt = omega arith }
note_vfx-Adds event_stamina_restored state e vfx p = record {
  hit = omega arith;
  hurt = omega arith;
}

note_blow-Adds :
    (k : EventType) (e : Event) (blows : Blows)
    → Adds k e blows.hits blows.total_damage
        (note_blow k e blows).hits
        (note_blow k e blows).total_damage
unfolding note_blow
note_blow-Adds event_damage_applied e blows = record { hit = ground arith; hurt = ground arith }
note_blow-Adds event_status_applied e blows = record { hit = omega arith; hurt = omega arith }
note_blow-Adds event_turn_started e blows = record { hit = omega arith; hurt = omega arith }
note_blow-Adds event_action_resolved e blows = record { hit = omega arith; hurt = omega arith }
note_blow-Adds event_state_changed e blows = record { hit = omega arith; hurt = omega arith }
note_blow-Adds event_match_finished e blows = record { hit = omega arith; hurt = omega arith }
note_blow-Adds event_stamina_restored e blows = record { hit = omega arith; hurt = omega arith }

note_turn-counts :
    (state : MatchState) (events : List Event) (vfx : TurnVfx)
    → All IsEarnest events
    → ((note_turn state events vfx).hit_count ≡ vfx.hit_count + hits_of events)
      × ((note_turn state events vfx).total_damage ≡ vfx.total_damage + damage_of events)
unfolding note_turn
note_turn-counts state [] vfx p = (omega arith, omega arith)
note_turn-counts state (e ∷ events) vfx p =
    let a = note_vfx-Adds e.kind state e vfx p.0 in
    let (hits, damage) = note_turn-counts state events (note_vfx e.kind state e vfx) p.1 in
    (omega (arith, a.hit, hits), omega (arith, a.hurt, damage))

count_blows-counts :
    (events : List Event) (blows : Blows)
    → ((count_blows events blows).hits ≡ blows.hits + hits_of events)
      × ((count_blows events blows).total_damage ≡ blows.total_damage + damage_of events)
unfolding count_blows
count_blows-counts [] blows = (omega arith, omega arith)
count_blows-counts (e ∷ events) blows =
    let a = note_blow-Adds e.kind e blows in
    let (hits, damage) = count_blows-counts events (note_blow e.kind e blows) in
    (omega (arith, a.hit, hits), omega (arith, a.hurt, damage))

abbrev pub no_blows : Blows
no_blows = record { hits = 0; total_damage = 0 }

-- If every event of damage that was done with success has a positive value: the loop of
-- `deriveTurnVFX` and the loop of `summarizeTurn` over the events of a turn both count these events
-- and add up their values.
pub derive-Agree :
    (result : TurnResult) (effects : List Effect)
    → All IsEarnest result.events
    → ((derive_turn_vfx result effects).hit_count ≡ hits_of result.events)
      × ((derive_turn_vfx result effects).total_damage ≡ damage_of result.events)
      × ((count_blows result.events no_blows).hits ≡ hits_of result.events)
      × ((count_blows result.events no_blows).total_damage ≡ damage_of result.events)
unfolding derive_turn_vfx
derive-Agree result effects p =
    let (hits, damage) = note_turn-counts result.next result.events no_vfx p in
    let (blows, pain) = count_blows-counts result.events no_blows in
    (omega (arith, hits), omega (arith, damage), omega (arith, blows), omega (arith, pain))
