-- ===== src/Storage/Players.antt =====
-- internal/storage/repositories.go: the players. cmd/server/player_ensurer.go: `EnsurePlayerSession`.
use terminal_wrestling_leagu.Common.{
  Bool, false, ◌||◌, Option, none, some, List, [], ◌∷◌, if◌then◌else◌,
}
use terminal_wrestling_leagu.Common.Text.{Str, str_eq}
use terminal_wrestling_leagu.Storage.{
  Player, Tables, err_not_found, query_failed, insert_failed, unique_violation,
}
use terminal_wrestling_leagu.Storage.Tx.{
  Tx, Call, unless, pure, raise, query, exec_or, fresh_id, now_fn, ◌>>=◌, on_pool,
}

-- `players.id` and `players.handle` are unique.
unfoldable pub player_clashes : Player → List Player → Bool
player_clashes p [] = false
player_clashes p (q ∷ qs) = str_eq q.id p.id || str_eq q.handle p.handle || player_clashes p qs

unfoldable pub player_by_id : Str → List Player → Option Player
player_by_id id [] = none
player_by_id id (p ∷ ps) = let rest = player_by_id id ps in if str_eq p.id id then some p else rest

unfoldable pub player_by_handle : Str → List Player → Option Player
player_by_handle handle [] = none
player_by_handle handle (p ∷ ps) =
    let rest = player_by_handle handle ps in if str_eq p.handle handle then some p else rest

unfoldable pub found_player : {F : Type 0} → Option Player → Tx F Player
found_player none = raise err_not_found
found_player (some p) = pure p

module _ {F : Type 0} where
  unfoldable pub put_player : Player → Tables F → Option (Tables F)
  put_player p t = unless (player_clashes p t.players) (record t { players = p ∷ t.players })

  -- `Create`.
  unfoldable pub create_player : Str → Call F Player
  create_player handle = on_pool (
      now_fn >>= λ now. fresh_id >>= λ id.
      let p : Player = record { id = id; handle = handle; created_at = now; updated_at = now } in
      exec_or unique_violation insert_failed (put_player p) >>= λ _. pure p)

  unfoldable pub get_by_id : Str → Call F Player
  get_by_id id = on_pool (query query_failed (λ t. player_by_id id t.players) >>= found_player)

  unfoldable pub get_by_handle : Str → Call F Player
  get_by_handle handle =
      on_pool (query query_failed (λ t. player_by_handle handle t.players) >>= found_player)
