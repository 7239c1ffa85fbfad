-- ===== src/Matchmaking/Match/Opening.antt =====
-- The match before its first turn.
use terminal_wrestling_leagu.Common.{ℕ, zero, suc, ◌<◌, ◌≡◌, refl, arith, false, some}
use terminal_wrestling_leagu.Common.Text.{Str}
use terminal_wrestling_leagu.Combat.Types.{
  Archetype, FighterStats, FighterState, MatchState, ok, archetype_stats, new_fighter,
  new_match_state, state_neutral, no_effects, action_none,
}
use terminal_wrestling_leagu.Combat.Bounds.{IsFit, MatchFit}
use terminal_wrestling_leagu.Combat.Ending.{Standing}
use terminal_wrestling_leagu.Matchmaking.Seeds.{archetype_of_hash, pick_archetype}
use terminal_wrestling_leagu.Matchmaking.Match.{MatchSetup, initial_match}

archetype_of_hash-known :
    (v : ℕ) → (stats : FighterStats) × (archetype_stats (archetype_of_hash v) ≡ some stats)
unfolding archetype_of_hash archetype_stats
archetype_of_hash-known zero = (_, refl)
archetype_of_hash-known (suc zero) = (_, refl)
archetype_of_hash-known (suc (suc zero)) = (_, refl)
archetype_of_hash-known (suc (suc (suc v))) = (_, refl)

pub record Fresh (id : Str) (f : FighterState) : Type 0 where
  pub same_id : f.player_id ≡ id
  pub fit : IsFit f
  pub up : 0 < f.hp

abbrev fresh_fighter : Str → Archetype → FighterStats → FighterState
fresh_fighter id archetype stats = record {
  player_id = id;
  archetype = archetype;
  stats = stats;
  hp = 100;
  stamina = 100;
  momentum = 0;
  state = state_neutral;
  effects = no_effects;
  last_action = action_none;
  last_action_success = false;
  last_offensive_hit_turn = 0;
}

pub fighter_of_stats :
    (id : Str) (archetype : Archetype) (stats : FighterStats)
    → archetype_stats archetype ≡ some stats
    → (f : FighterState) × (new_fighter id archetype ≡ ok f) × Fresh id f
unfolding new_fighter
fighter_of_stats id archetype stats h = (
  fresh_fighter id archetype stats,
  rw (h, new_fighter) refl,
  record { same_id = refl; fit = ground arith; up = omega arith },
)

pub picked_fighter :
    (id : Str) (salt : ℕ)
    → (f : FighterState) × (new_fighter id (pick_archetype id salt) ≡ ok f) × Fresh id f
unfolding pick_archetype
picked_fighter id salt = let (stats, h) = archetype_of_hash-known _ in fighter_of_stats id _ stats h

-- A match of the two players that has not begun.
pub record Opening (setup : MatchSetup) (s : MatchState) : Type 0 where
  pub first : s.p1.player_id ≡ setup.id1
  pub second : s.p2.player_id ≡ setup.id2
  pub fit : MatchFit s
  pub standing : Standing s
  pub begun : s.turn ≡ 0
  pub playing : s.outcome.finished ≡ false

-- Every archetype that an id can pick is known, so the two fighters are always made.
pub initial_match-Opening :
    (setup : MatchSetup) → (s : MatchState) × (initial_match setup ≡ ok s) × Opening setup s
unfolding initial_match new_match_state
initial_match-Opening setup =
    let (f, e, h) = picked_fighter setup.id1 0 in
    let (g, e', h') = picked_fighter setup.id2 1 in
    (
      new_match_state f g,
      simp (e, e') refl,
      record {
        first = h.same_id;
        second = h'.same_id;
        fit = (h.fit, h'.fit);
        standing = record { playing = λ _. (h.up, h'.up); ended = λ over. cc };
        begun = refl;
        playing = refl;
      },
    )
