-- ===== src/Npc/Moves.antt =====
-- The actions and zones that the computer may choose.
use terminal_wrestling_leagu.Common.{
  ℕ, ◌≡◌, refl, arith, Bool, true, false, ◌||◌, List, [], ◌∷◌, ltb, Bool-cases, inl, inr, All, map,
  some, if_keeps,
}
use terminal_wrestling_leagu.Common.Int.{ℤ, pos, ◌≤ℤ◌, leb_ℤ, +ℤ_parts}
use terminal_wrestling_leagu.Common.Text.{Str, is_empty}
use terminal_wrestling_leagu.Combat.Types.{
  State, state_clinch, state_ground, state_dominant, state_submission_attempt, Action, action_none,
  unknown_action, action_strike, action_grapple, action_block, action_dodge, action_counter,
  action_feint, action_break, zone_torso, FighterState, MatchState, TurnInput, RandomSource,
}
use terminal_wrestling_leagu.Combat.Scene.{is_stunned}
use terminal_wrestling_leagu.Combat.Turn.{Slot, fighters_by_id, actor_of, defender_of}
use terminal_wrestling_leagu.Combat.Canonical.{KnownZone}
use terminal_wrestling_leagu.Npc.Choice.{Weight, total_weight, pick, choose}
use terminal_wrestling_leagu.Npc.Adjust.{
  at_least_one, adjusted_action, adjusted_zone, adjust_action_weights, adjust_zone_weights,
}
use terminal_wrestling_leagu.Npc.{
  Decision, decided, refused, base_action_weights, base_zone_weights, or_block, npc_input,
  choose_action, choose_zone, decide_for, decide_as, decide, weights, zones,
}

-- An action that does something.
abbrev pub IsMove : Action → Type 0
IsMove action_none = ⊥
IsMove (unknown_action n) = ⊥
IsMove _ = Unit

module _ {T : Type 0} (P : T → Type 0) where
  pick_all :
      (last : T) (ws : List (Weight T)) (roll : ℤ)
      → P last
      → All (λ (w : Weight T). P w.item) ws
      → P (pick last ws roll)
  unfolding pick
  pick_all last [] roll h hs = h
  pick_all last (w ∷ ws) roll h hs = if_keeps P _ _ _ hs.0 (pick_all w.item ws _ hs.0 hs.1)

  choose_all :
      {R : Type 0} (source : RandomSource R) (fallback : T) (w : Weight T) (ws : List (Weight T))
      (rng : R)
      → leb_ℤ (total_weight (w ∷ ws)) (pos 0) ≡ false
      → All (λ (w : Weight T). P w.item) (w ∷ ws)
      → P (choose source fallback (w ∷ ws) rng).0
  unfolding choose pick
  choose_all source fallback w ws rng total hs =
      simp total (if_keeps P _ _ _ hs.0 (pick_all w.item ws _ hs.0 hs.1))

-- Weights that were put to at least one have a positive total.
at_least_one-le : (w : ℤ) → pos 1 ≤ℤ at_least_one w
unfolding at_least_one
at_least_one-le w = ground arith

total-nonneg :
    {T : Type 0} (ws : List (Weight T))
    → All (λ (w : Weight T). pos 1 ≤ℤ w.weight) ws
    → pos 0 ≤ℤ total_weight ws
unfolding total_weight
total-nonneg [] h = omega arith
total-nonneg (w ∷ ws) h =
    omega (arith, +ℤ_parts w.weight (total_weight ws), h.0, total-nonneg ws h.1)

total-pos :
    {T : Type 0} (w : Weight T) (ws : List (Weight T))
    → All (λ (w : Weight T). pos 1 ≤ℤ w.weight) (w ∷ ws)
    → leb_ℤ (total_weight (w ∷ ws)) (pos 0) ≡ false
unfolding total_weight
total-pos w ws h = ground (arith, +ℤ_parts w.weight (total_weight ws), h.0, total-nonneg ws h.1)

adjusted_floor :
    {T : Type 0} (f : T → ℤ → ℤ) (ws : List (Weight T))
    → All
        (λ (w : Weight T). pos 1 ≤ℤ w.weight)
        (map (λ (w : Weight T). record w { weight = at_least_one (f w.item w.weight) }) ws)
adjusted_floor f [] = tt
adjusted_floor f (w ∷ ws) = (at_least_one-le (f w.item w.weight), adjusted_floor f ws)

adjusted-All :
    {T : Type 0} (P : T → Type 0) (f : T → ℤ → ℤ) (ws : List (Weight T))
    → All (λ (w : Weight T). P w.item) ws
    → All
        (λ (w : Weight T). P w.item)
        (map (λ (w : Weight T). record w { weight = at_least_one (f w.item w.weight) }) ws)
adjusted-All P f [] h = tt
adjusted-All P f (w ∷ ws) h = (h.0, adjusted-All P f ws h.1)

abbrev IsFilled : {T : Type 0} → List T → Type 0
IsFilled [] = ⊥
IsFilled (x ∷ xs) = Unit

-- A choice from an adjusted table is an item of the table.
choose-adjusted :
    {T R : Type 0} (P : T → Type 0) (f : T → ℤ → ℤ) (source : RandomSource R) (fallback : T)
    (ws : List (Weight T)) (rng : R)
    → IsFilled ws
    → All (λ (w : Weight T). P w.item) ws
    → P
        (choose source fallback
          (map (λ (w : Weight T). record w { weight = at_least_one (f w.item w.weight) }) ws)
          rng).0
choose-adjusted P f source fallback [] rng filled h = absurd filled
choose-adjusted P f source fallback (w ∷ ws) rng filled h =
    choose_all P source fallback _ _ rng (total-pos _ _ (adjusted_floor f (w ∷ ws)))
      (adjusted-All P f (w ∷ ws) h)

module _ {R : Type 0} (source : RandomSource R) where
  table-IsMove :
      (strike grapple block dodge counter feint break : ℕ) (self opp : FighterState) (rng : R)
      → IsMove
          (choose_action source
            (adjust_action_weights
              (weights strike grapple block dodge counter feint break)
              self
              opp)
            rng).0
  unfolding choose_action adjust_action_weights
  table-IsMove strike grapple block dodge counter feint break self opp rng =
      choose-adjusted IsMove (adjusted_action self opp) source action_none
        (weights strike grapple block dodge counter feint break) rng tt
        (tt, (tt, (tt, (tt, (tt, (tt, (tt, tt)))))))

  choose_action-IsMove :
      (position : State) (self opp : FighterState) (rng : R)
      → IsMove
          (choose_action source
            (adjust_action_weights (base_action_weights position) self opp)
            rng).0
  unfolding base_action_weights
  choose_action-IsMove state_clinch self opp rng = table-IsMove 20 30 10 8 8 4 20 self opp rng
  choose_action-IsMove state_ground self opp rng = table-IsMove 12 32 10 8 8 6 24 self opp rng
  choose_action-IsMove state_dominant self opp rng = table-IsMove 22 30 10 8 10 14 6 self opp rng
  choose_action-IsMove state_submission_attempt self opp rng =
      table-IsMove 12 20 12 8 8 10 30 self opp rng
  choose_action-IsMove _ self opp rng = table-IsMove 34 20 14 14 8 8 2 self opp rng

  table-KnownZone :
      (head torso legs : ℕ) (action : Action) (self opp : FighterState) (rng : R)
      → KnownZone
          (choose_zone source (adjust_zone_weights (zones head torso legs) action self opp) rng).0
  unfolding choose_zone adjust_zone_weights
  table-KnownZone head torso legs action self opp rng =
      choose-adjusted KnownZone (adjusted_zone action self opp) source zone_torso
        (zones head torso legs) rng tt (tt, (tt, (tt, tt)))

  choose_zone-KnownZone :
      (action : Action) (self opp : FighterState) (rng : R)
      → KnownZone
          (choose_zone source
            (adjust_zone_weights (base_zone_weights action) action self opp)
            rng).0
  unfolding base_zone_weights
  choose_zone-KnownZone action_grapple self opp rng = table-KnownZone 15 65 20 _ self opp rng
  choose_zone-KnownZone action_counter self opp rng = table-KnownZone 35 45 20 _ self opp rng
  choose_zone-KnownZone _ self opp rng = table-KnownZone 30 45 25 _ self opp rng

or_block-IsMove : (action : Action) → IsMove action → IsMove (or_block action)
unfolding or_block
or_block-IsMove action_none h = tt
or_block-IsMove (unknown_action n) h = h
or_block-IsMove action_strike h = tt
or_block-IsMove action_grapple h = tt
or_block-IsMove action_block h = tt
or_block-IsMove action_dodge h = tt
or_block-IsMove action_counter h = tt
or_block-IsMove action_feint h = tt
or_block-IsMove action_break h = tt

-- Whether the fighter is stunned, by its state or by its counter.
abbrev pub cannot_act : FighterState → Bool
cannot_act f = is_stunned f.state || ltb 0 f.effects.stunned_for

-- What a decision for `self` satisfies.
pub record SoundDecision {R : Type 0} (self : FighterState) (before : R) (x : TurnInput) (after : R)
    : Type 0 where
  pub named : x.player_id ≡ self.player_id
  pub aimed : KnownZone x.target
  pub rests : cannot_act self ≡ true → (x.action ≡ action_none) × (after ≡ before)
  pub plays : cannot_act self ≡ false → IsMove x.action

abbrev pub IsSound : {R : Type 0} → FighterState → R → Decision R → Type 0
IsSound self rng (decided x rng') = SoundDecision self rng x rng'
IsSound self rng (refused e) = ⊥

module _ {R : Type 0} (source : RandomSource R) where
  decide_for-IsSound :
      (position : State) (self opp : FighterState) (rng : R)
      → cannot_act self ≡ false
      → IsSound self rng (decide_for source position self opp rng)
  unfolding decide_for npc_input
  decide_for-IsSound position self opp rng h = record {
    named = refl;
    aimed = choose_zone-KnownZone source _ self opp _;
    rests = λ e. ground arith;
    plays = λ _. or_block-IsMove _ (choose_action-IsMove source position self opp rng);
  }

  pub decide_as-IsSound :
      (state : MatchState) (slot : Slot) (rng : R)
      → IsSound (actor_of slot state) rng (decide_as source state slot rng)
  unfolding decide_as npc_input
  decide_as-IsSound state slot rng = elim (Bool-cases (cannot_act (actor_of slot state))) [
    | inl stunned ↦
        simp stunned
          (record { named = refl; aimed = tt; rests = λ _. (refl, refl); plays = λ e. cc })
    | inr fit ↦ simp fit (
        decide_for-IsSound state.combat_state (actor_of slot state) (defender_of slot state) rng
          fit)
  ]

IsSound-decided :
    {R : Type 0} (self : FighterState) (rng : R) (d : Decision R)
    → IsSound self rng d
    → (x : TurnInput) × (rng' : R) × (d ≡ decided x rng') × SoundDecision self rng x rng'
IsSound-decided self rng (decided x rng') h = (x, rng', refl, h)
IsSound-decided self rng (refused e) h = absurd h

-- For the id of a fighter of the match the engine decides, whatever the random numbers are: an
-- input with that fighter's id and a known zone. If the fighter is stunned, the action is `none`
-- and no random number is drawn. If it is not, the action is one of the seven proper ones.
pub decide_sound :
    {R : Type 0} (source : RandomSource R) (state : MatchState) (id : Str) (slot : Slot) (rng : R)
    → is_empty id ≡ false
    → fighters_by_id state id ≡ some slot
    → (x : TurnInput) × (rng' : R) × (decide source state id rng ≡ decided x rng')
      × SoundDecision (actor_of slot state) rng x rng'
unfolding decide
decide_sound source state id slot rng named found =
    simp (named, found) (IsSound-decided _ rng _ (decide_as-IsSound source state slot rng))
