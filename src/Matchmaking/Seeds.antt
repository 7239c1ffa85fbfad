-- ===== src/Matchmaking/Seeds.antt =====
-- internal/matchmaking/service.go: the archetype and the seeds that follow from the players' ids, over
-- FNV-1a of 32 and of 64 bits (`hash/fnv`).
use Prim.Native.Nat.{bit_xor}
use terminal_wrestling_leagu.Common.{
  ℕ, zero, suc, ◌*◌, ◌%◌, ◌^◌, List, [], ◌∷◌, ◌++◌, ◌==◌, if◌then◌else◌,
}
use terminal_wrestling_leagu.Common.Text.{Str}
use terminal_wrestling_leagu.Combat.Types.{
  Archetype, archetype_balanced, archetype_powerhouse, archetype_technician, archetype_high_flyer,
}
use terminal_wrestling_leagu.Combat.Hash.{fnv_new, fnv_write}

unfoldable pub fnv32_write : ℕ → List ℕ → ℕ
fnv32_write h [] = h
fnv32_write h (b ∷ bs) = fnv32_write (bit_xor h b * 16777619 % 2 ^ 32) bs

unfoldable pub archetype_of_hash : ℕ → Archetype
archetype_of_hash zero = archetype_balanced
archetype_of_hash (suc zero) = archetype_powerhouse
archetype_of_hash (suc (suc zero)) = archetype_technician
archetype_of_hash _ = archetype_high_flyer

unfoldable pub pick_archetype : Str → ℕ → Archetype
pick_archetype id salt = archetype_of_hash (fnv32_write 2166136261 (id ++ (salt ∷ [])) % 4)

abbrev one_if_zero : ℕ → ℕ
one_if_zero seed = if seed == 0 then 1 else seed

-- `stamp` is the time of the match, formatted.
unfoldable pub seed_for_pair : Str → Str → Str → ℕ
seed_for_pair id1 id2 stamp =
    one_if_zero (fnv_write fnv_new (id1 ++ (0 ∷ []) ++ id2 ++ (0 ∷ []) ++ stamp))

unfoldable pub seed_with_salt : ℕ → ℕ → ℕ
seed_with_salt seed salt = one_if_zero (bit_xor seed salt)

abbrev pub npc_seed_salt_p1 : ℕ
npc_seed_salt_p1 = 0xa5a5a5a5a5a5a5a5

abbrev pub npc_seed_salt_p2 : ℕ
npc_seed_salt_p2 = 0x5a5a5a5a5a5a5a5a
