-- ===== src/Server/Ensurer.antt =====
-- cmd/server/player_ensurer.go: `EnsurePlayerSession`, on the database of internal/storage. What other
-- sessions write between the lookup and the creation is `others`. The repository is never nil.
use terminal_wrestling_leagu.Common.Answer.{Answer, failed, done}
use terminal_wrestling_leagu.Common.Text.{Str}
use terminal_wrestling_leagu.Storage.{
  Player, PlayerProfile, StorageError, err_not_found, unique_violation,
}
use terminal_wrestling_leagu.Storage.Tx.{Call, Work, pure, on_pool, and_then}
use terminal_wrestling_leagu.Storage.Players.{get_by_handle, create_player}
use terminal_wrestling_leagu.Storage.Profiles.{get_or_create_profile}

module _ {F : Type 0} where
  -- The profile of a player that is there.
  unfoldable pub session_of : Player → Call F (Str × PlayerProfile)
  session_of p = and_then (get_or_create_profile p.id) (λ profile. on_pool (pure (p.id, profile)))

  -- Another session may have made the player in the meantime.
  unfoldable pub created : Str → Answer StorageError Player → Call F (Str × PlayerProfile)
  created handle (done p) d w = session_of p d w
  created handle (failed unique_violation) d w = and_then (get_by_handle handle) session_of d w
  created handle (failed reason) d w = (failed reason, w)

  unfoldable pub looked_up :
      (Work F → Work F) → Str → Answer StorageError Player → Call F (Str × PlayerProfile)
  looked_up others handle (done p) d w = session_of p d w
  looked_up others handle (failed err_not_found) d w =
      let (answer, w') = create_player handle d (others w) in created handle answer d w'
  looked_up others handle (failed reason) d w = (failed reason, w)

  unfoldable pub ensure_player_session : (Work F → Work F) → Str → Call F (Str × PlayerProfile)
  ensure_player_session others handle d w =
      let (answer, w') = get_by_handle handle d w in looked_up others handle answer d w'
