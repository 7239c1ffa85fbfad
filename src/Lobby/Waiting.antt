-- ===== src/Lobby/Waiting.antt =====
-- What the queue promises: who waits, in the order of arrival, each player once and since when.
use terminal_wrestling_leagu.Common.{
  ℕ, ◌≡◌, Bool, false, ◌||◌, Option, none, some, List, [], ◌∷◌, if◌then◌else◌, map, All,
}
use terminal_wrestling_leagu.Common.Int.{ℤ, sub_ℕ, leb_ℤ}
use terminal_wrestling_leagu.Common.Text.{Str, str_eq}

pub record Waiting : Type 0 where
  pub player : Str
  pub since : ℕ

abbrev pub players : List Waiting → List Str
players = map (λ (w : Waiting). w.player)

-- A player waits too long when a positive limit is reached.
abbrev pub is_late : ℕ → ℤ → Waiting → Bool
is_late now timeout w = leb_ℤ timeout (sub_ℕ now w.since)

unfoldable pub late : ℕ → ℤ → List Waiting → List Waiting
late now timeout [] = []
late now timeout (w ∷ ws) =
    let rest = late now timeout ws in if is_late now timeout w then w ∷ rest else rest

unfoldable pub alive : ℕ → ℤ → List Waiting → List Waiting
alive now timeout [] = []
alive now timeout (w ∷ ws) =
    let rest = alive now timeout ws in if is_late now timeout w then rest else w ∷ rest

-- The first two, and those who wait on.
abbrev pub first_pair : List Waiting → Option (Str × Str)
first_pair (a ∷ b ∷ ws) = some (a.player, b.player)
first_pair _ = none

abbrev pub after_pair : List Waiting → List Waiting
after_pair (a ∷ b ∷ ws) = ws
after_pair ws = ws

abbrev pub listed : Str → List Waiting → Bool
listed id [] = false
listed id (w ∷ ws) = str_eq w.player id || listed id ws

-- Nobody in the list is `id`.
abbrev pub Lacks : Str → List Waiting → Type 0
Lacks id ws = All (λ (w : Waiting). str_eq w.player id ≡ false) ws

abbrev pub IsDistinct : List Waiting → Type 0
IsDistinct [] = Unit
IsDistinct (w ∷ ws) = Lacks w.player ws × IsDistinct ws

-- The join times of all who wait are noted.
abbrev pub Known : (Str → Option ℕ) → List Waiting → Type 0
Known queued_at ws = All (λ (w : Waiting). queued_at w.player ≡ some w.since) ws
