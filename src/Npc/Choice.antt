-- ===== src/Npc/Choice.antt =====
-- internal/npc/engine.go: `chooseAction` and `chooseZone`, which differ in the type of the items only.
use terminal_wrestling_leagu.Common.{List, [], ◌∷◌, if◌then◌else◌}
use terminal_wrestling_leagu.Common.Int.{ℤ, pos, ◌+ℤ◌, ◌-ℤ◌, leb_ℤ, ltb_ℤ}
use terminal_wrestling_leagu.Combat.Types.{RandomSource}

pub record Weight (T : Type 0) : Type 0 where
  pub item : T
  pub weight : ℤ

unfoldable pub total_weight : {T : Type 0} → List (Weight T) → ℤ
total_weight [] = pos 0
total_weight (w ∷ ws) = w.weight +ℤ total_weight ws

-- The walk through the weights; a roll beyond them all takes the last item.
unfoldable pub pick : {T : Type 0} → T → List (Weight T) → ℤ → T
pick last [] roll = last
pick last (w ∷ ws) roll =
    let rest = pick w.item ws (roll -ℤ w.weight) in if ltb_ℤ roll w.weight then w.item else rest

unfoldable pub choose : {T R : Type 0} → RandomSource R → T → List (Weight T) → R → T × R
choose source fallback weights rng =
    let total = total_weight weights in
    let (roll, rng') = source.next_int total rng in
    let roll' = if ltb_ℤ roll (pos 0) then pos 0 else roll in
    if leb_ℤ total (pos 0) then (fallback, rng) else (pick fallback weights roll', rng')
