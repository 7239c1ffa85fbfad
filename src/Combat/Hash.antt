-- ===== src/Combat/Hash.antt =====
-- The checksums of internal/combat/resolver.go over FNV-1a of 64 bits (the standard library's
-- `hash/fnv`), whose state is the running sum.
use Prim.Native.Nat.{bit_xor}
use terminal_wrestling_leagu.Common.{
  ℕ, zero, suc, ◌*◌, ◌/◌, ◌%◌, ◌^◌, Bool, true, false, List, [], ◌∷◌,
}
use terminal_wrestling_leagu.Common.Int.{ℤ, pos, to_u64}
use terminal_wrestling_leagu.Common.Text.{Str}
use terminal_wrestling_leagu.Combat.Types.{
  State, state_neutral, state_clinch, state_ground, state_dominant, state_stunned,
  state_submission_attempt, Action, action_none, action_strike, action_grapple, action_block,
  action_dodge, action_counter, action_feint, action_break, unknown_action, Archetype,
  archetype_balanced, archetype_powerhouse, archetype_technician, archetype_high_flyer,
  unknown_archetype, FighterState, MatchState,
}

unfoldable pub fnv_new : ℕ
fnv_new = 14695981039346656037

unfoldable pub fnv_write : ℕ → List ℕ → ℕ
fnv_write h [] = h
fnv_write h (b ∷ bs) = fnv_write (bit_xor h b * 1099511628211 % 2 ^ 64) bs

-- `binary.LittleEndian.PutUint64`.
unfoldable pub little_endian : ℕ → ℕ → List ℕ
little_endian zero v = []
little_endian (suc n) v = v % 256 ∷ little_endian n (v / 256)

unfoldable pub append_hash_int : ℕ → ℤ → ℕ
append_hash_int h v = fnv_write h (little_endian 8 (to_u64 v))

unfoldable pub state_code : State → ℕ
state_code state_neutral = 0
state_code state_clinch = 1
state_code state_ground = 2
state_code state_dominant = 3
state_code state_stunned = 4
state_code state_submission_attempt = 5

-- An unknown code is a value past the constants.
unfoldable pub action_code : Action → ℕ
action_code action_none = 0
action_code action_strike = 1
action_code action_grapple = 2
action_code action_block = 3
action_code action_dodge = 4
action_code action_counter = 5
action_code action_feint = 6
action_code action_break = 7
action_code (unknown_action n) = n

unfoldable pub archetype_code : Archetype → ℕ
archetype_code archetype_balanced = 0
archetype_code archetype_powerhouse = 1
archetype_code archetype_technician = 2
archetype_code archetype_high_flyer = 3
archetype_code (unknown_archetype n) = n

unfoldable pub write_hash_int : ℕ → ℕ → ℕ
write_hash_int h v = append_hash_int h (pos v)

unfoldable pub write_hash_bool : ℕ → Bool → ℕ
write_hash_bool h true = write_hash_int h 1
write_hash_bool h false = write_hash_int h 0

unfoldable pub write_hash_string : ℕ → Str → ℕ
write_hash_string h v = fnv_write (fnv_write h v) (0 ∷ [])

unfoldable pub write_hash_fighter : ℕ → FighterState → ℕ
write_hash_fighter h0 f =
    let h1 = write_hash_string h0 f.player_id in
    let h2 = write_hash_int h1 (archetype_code f.archetype) in
    let h3 = write_hash_int h2 f.stats.power in
    let h4 = write_hash_int h3 f.stats.technique in
    let h5 = write_hash_int h4 f.stats.agility in
    let h6 = write_hash_int h5 f.stats.endurance in
    let h7 = write_hash_int h6 f.hp in
    let h8 = write_hash_int h7 f.stamina in
    let h9 = write_hash_int h8 f.momentum in
    let h10 = write_hash_int h9 (state_code f.state) in
    let h11 = write_hash_int h10 f.effects.stunned_for in
    let h12 = write_hash_int h11 f.effects.torso_regen_penalty_for in
    let h13 = write_hash_int h12 f.effects.legs_dodge_penalty_for in
    let h14 = write_hash_int h13 (action_code f.last_action) in
    let h15 = write_hash_bool h14 f.last_action_success in
    write_hash_int h15 f.last_offensive_hit_turn

unfoldable pub hash_match_state : MatchState → ℕ
hash_match_state state =
    let h1 = write_hash_string fnv_new state.p1.player_id in
    let h2 = write_hash_string h1 state.p2.player_id in
    let h3 = write_hash_int h2 state.turn in
    let h4 = write_hash_int h3 (state_code state.combat_state) in
    let h5 = write_hash_int h4 state.distance in
    let h6 = write_hash_int h5 (state.rng_state % 2 ^ 32) in
    let h7 = write_hash_fighter h6 state.p1 in
    let h8 = write_hash_fighter h7 state.p2 in
    let h9 = write_hash_bool h8 state.outcome.finished in
    let h10 = write_hash_string h9 state.outcome.winner_id in
    write_hash_string h10 state.outcome.method
