-- ===== src/Animation/Inferred.antt =====
-- Which effects a turn has.
use terminal_wrestling_leagu.Common.{
  ◌≡◌, refl, ◌∙◌, arith, Bool, true, false, ◌&&◌, ◌||◌, List, [], ◌∷◌, ◌++◌,
}
use terminal_wrestling_leagu.Common.Int.{pos, leb_ℤ}
use terminal_wrestling_leagu.Combat.Types.{
  Action, action_none, action_strike, action_grapple, action_block, action_dodge, action_counter,
  action_feint, action_break, unknown_action, Event, EventType, event_turn_started,
  event_action_resolved, event_damage_applied, event_status_applied, event_state_changed,
  event_match_finished, event_stamina_restored, TurnResult,
}
use terminal_wrestling_leagu.Animation.{
  Effect, effect_hitstop, effect_shake, effect_knockback, effect_slowmo, has_effect,
}
use terminal_wrestling_leagu.Animation.Effects.{
  EffectFlags, pushes, note_effects, note_all, no_flags, when, infer_effects,
}

abbrev pub is_damage : EventType → Bool
is_damage event_damage_applied = true
is_damage _ = false

abbrev pub is_finish : EventType → Bool
is_finish event_match_finished = true
is_finish _ = false

-- A hard blow, and a push.
abbrev pub is_hard : Event → Bool
is_hard e = is_damage e.kind && leb_ℤ (pos 15) e.value

abbrev pub is_grip : Action → Bool
is_grip action_grapple = true
is_grip action_counter = true
is_grip _ = false

pushes-is_grip : (action : Action) → pushes action ≡ is_grip action
pushes-is_grip action_none = refl
pushes-is_grip action_strike = refl
pushes-is_grip action_grapple = refl
pushes-is_grip action_block = refl
pushes-is_grip action_dodge = refl
pushes-is_grip action_counter = refl
pushes-is_grip action_feint = refl
pushes-is_grip action_break = refl
pushes-is_grip (unknown_action n) = refl

abbrev pub is_push : Event → Bool
is_push e = is_damage e.kind && (e.success && is_grip e.action)

abbrev pub any : (Event → Bool) → List Event → Bool
any test [] = false
any test (e ∷ events) = test e || any test events

-- The variables of the loop, after an event of the given kind and after all of them.
record Noted (k : EventType) (e : Event) (old new : EffectFlags) : Type 0 where
  damage : new.has_damage ≡ (old.has_damage || is_damage k)
  finish : new.has_match_finished ≡ (old.has_match_finished || is_finish k)
  shake : new.has_shake ≡ (old.has_shake || (is_damage k && leb_ℤ (pos 15) e.value || is_finish k))
  knockback :
      new.has_knockback ≡ (old.has_knockback || (is_damage k && (e.success && is_grip e.action)))

-- An event that is neither damage nor the end.
passed-Noted :
    (k : EventType) (e : Event) (old : EffectFlags)
    → is_damage k ≡ false
    → is_finish k ≡ false
    → Noted k e old old
passed-Noted k e old d f = record {
  damage = ground arith;
  finish = ground arith;
  shake = ground arith;
  knockback = ground arith;
}

note-Noted : (k : EventType) (e : Event) (old : EffectFlags) → Noted k e old (note_effects k e old)
unfolding note_effects
note-Noted event_damage_applied e old = record {
  damage = ground arith;
  finish = ground arith;
  shake = ground arith;
  knockback = ground (arith, pushes-is_grip e.action);
}
note-Noted event_match_finished e old = record {
  damage = ground arith;
  finish = ground arith;
  shake = ground arith;
  knockback = ground arith;
}
note-Noted event_turn_started e old = passed-Noted event_turn_started e old refl refl
note-Noted event_action_resolved e old = passed-Noted event_action_resolved e old refl refl
note-Noted event_status_applied e old = passed-Noted event_status_applied e old refl refl
note-Noted event_state_changed e old = passed-Noted event_state_changed e old refl refl
note-Noted event_stamina_restored e old = passed-Noted event_stamina_restored e old refl refl

record AllNoted (events : List Event) (old new : EffectFlags) : Type 0 where
  damage : new.has_damage ≡ (old.has_damage || any (λ e. is_damage e.kind) events)
  finish : new.has_match_finished ≡ (old.has_match_finished || any (λ e. is_finish e.kind) events)
  shake : new.has_shake ≡ (old.has_shake || any (λ e. is_hard e || is_finish e.kind) events)
  knockback : new.has_knockback ≡ (old.has_knockback || any is_push events)

note-AllNoted :
    (events : List Event) (old : EffectFlags) → AllNoted events old (note_all events old)
unfolding note_all
note-AllNoted [] old = record {
  damage = ground arith;
  finish = ground arith;
  shake = ground arith;
  knockback = ground arith;
}
note-AllNoted (e ∷ events) old =
    let n = note-Noted e.kind e old in
    let r = note-AllNoted events (note_effects e.kind e old) in
    record {
      damage = ground (arith, n.damage, r.damage);
      finish = ground (arith, n.finish, r.finish);
      shake = ground (arith, n.shake, r.shake);
      knockback = ground (arith, n.knockback, r.knockback);
    }

has_effect-whens :
    (a b c d : Bool) (want : Effect)
    → has_effect
        (when a effect_hitstop
          ++ (when b effect_shake ++ (when c effect_knockback ++ when d effect_slowmo)))
        want
      ≡ elim want [
        | effect_hitstop ↦ a
        | effect_shake ↦ b
        | effect_knockback ↦ c
        | effect_slowmo ↦ d
      ]
unfolding has_effect
has_effect-whens a b c d effect_hitstop = ground arith
has_effect-whens a b c d effect_shake = ground arith
has_effect-whens a b c d effect_knockback = ground arith
has_effect-whens a b c d effect_slowmo = ground arith

-- When each effect belongs to a turn.
abbrev pub calls_for : Effect → List Event → Bool
calls_for effect_hitstop events = any (λ e. is_damage e.kind) events
calls_for effect_shake events = any (λ e. is_hard e || is_finish e.kind) events
calls_for effect_knockback events = any is_push events
calls_for effect_slowmo events = any (λ e. is_finish e.kind) events

-- A turn has the hitstop if some event is damage; the shake if some damage is 15 or more or some event
-- is that the match finished; the knockback if some event is damage done with success by a grapple or
-- a counter; and slow motion if some event is that the match finished. It has no other effect.
pub has_effect-infer_effects :
    (result : TurnResult) (effect : Effect)
    → has_effect (infer_effects result) effect ≡ calls_for effect result.events
unfolding infer_effects
has_effect-infer_effects result effect_hitstop =
    has_effect-whens _ _ _ _ effect_hitstop ∙ (note-AllNoted result.events no_flags).damage
has_effect-infer_effects result effect_shake =
    has_effect-whens _ _ _ _ effect_shake ∙ (note-AllNoted result.events no_flags).shake
has_effect-infer_effects result effect_knockback =
    has_effect-whens _ _ _ _ effect_knockback ∙ (note-AllNoted result.events no_flags).knockback
has_effect-infer_effects result effect_slowmo =
    has_effect-whens _ _ _ _ effect_slowmo ∙ (note-AllNoted result.events no_flags).finish
