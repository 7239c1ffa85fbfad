-- ===== src/Npc/Named.antt =====
-- Whose input the computer decides.
use terminal_wrestling_leagu.Common.{◌≡◌, ◌∙◌, arith, some, Bool-cases, Option-cases, inl, inr}
use terminal_wrestling_leagu.Common.Text.{Str, str_eq_iff, is_empty}
use terminal_wrestling_leagu.Combat.Types.{MatchState, FighterState, RandomSource}
use terminal_wrestling_leagu.Combat.Turn.{Slot, slot1, slot2, fighters_by_id, actor_of}
use terminal_wrestling_leagu.Npc.{Decision, decided, refused, decide, decide_as}
use terminal_wrestling_leagu.Npc.Moves.{IsSound, decide_as-IsSound}

-- A decision carries the id that it was asked for.
abbrev pub IsNamed : {R : Type 0} → Str → Decision R → Type 0
IsNamed id (decided x rng) = x.player_id ≡ id
IsNamed id (refused e) = Unit

pub found_id :
    (state : MatchState) (id : Str) (slot : Slot)
    → fighters_by_id state id ≡ some slot
    → (actor_of slot state).player_id ≡ id
unfolding fighters_by_id
found_id state id slot1 h =
    ground (arith, str_eq_iff state.p1.player_id id, str_eq_iff state.p2.player_id id)
found_id state id slot2 h =
    ground (arith, str_eq_iff state.p1.player_id id, str_eq_iff state.p2.player_id id)

IsSound-IsNamed :
    {R : Type 0} (self : FighterState) (rng : R) (id : Str) (d : Decision R)
    → self.player_id ≡ id
    → IsSound self rng d
    → IsNamed id d
IsSound-IsNamed self rng id (decided x rng') e h = h.named ∙ e
IsSound-IsNamed self rng id (refused reason) e h = tt

pub decide-IsNamed :
    {R : Type 0} (source : RandomSource R) (state : MatchState) (id : Str) (rng : R)
    → IsNamed id (decide source state id rng)
unfolding decide
decide-IsNamed source state id rng = elim (Bool-cases (is_empty id)) [
  | inl empty ↦ simp empty tt
  | inr full ↦ elim (Option-cases (fighters_by_id state id)) [
    | inl missing ↦ rw (full, missing, IsNamed) tt
    | inr (slot, e) ↦
        rw (full, e, IsNamed)
          (IsSound-IsNamed _ rng id (decide_as source state slot rng) (found_id state id slot e)
            (decide_as-IsSound source state slot rng))
  ]
]
