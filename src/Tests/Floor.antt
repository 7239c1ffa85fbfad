-- ===== src/Tests/Floor.antt =====
-- A player who registers and starts a practice match.
use terminal_wrestling_leagu.Common.{◌≡◌, refl, false, true, none, some, [], ◌∷◌}
use terminal_wrestling_leagu.Common.Text.{str_eq}
use terminal_wrestling_leagu.Lobby.{
  Lobby, Session, changed, register, put, new_lobby, leave_queue, remove_queue_locked, get_session,
}
use terminal_wrestling_leagu.Matchmaking.Floor.{
  Floor, new_floor, started, start_npc_match, practice, mark,
}
use terminal_wrestling_leagu.Matchmaking.Exclusive.{IsExclusive}
use terminal_wrestling_leagu.Matchmaking.Running.{
  opens, moves, registers, practices, Reach-IsExclusive,
}

abbrev ana : Session
ana = record { player_id = 97 ∷ []; handle = 65 ∷ [] }

abbrev visited : Lobby
visited = record {
  sessions = put (λ id. none) (97 ∷ []) (some ana);
  queued_at = λ id. none;
  queue = [];
}

visit : register new_floor.lobby ana ≡ changed visited
unfolding register new_floor new_lobby
visit = refl

abbrev training : Floor
training = record {
  lobby = visited;
  in_match = mark (λ id. false) (97 ∷ []) true;
  queue_joined_at = put (λ id. none) (97 ∷ []) none;
  bouts = practice (97 ∷ []) ∷ [];
}

train : start_npc_match (record new_floor { lobby = visited }) (97 ∷ []) ≡ started training
unfolding start_npc_match get_session leave_queue remove_queue_locked new_floor new_lobby str_eq
train = refl

Reach-IsExclusive_example : IsExclusive training
Reach-IsExclusive_example = Reach-IsExclusive (
    moves (moves opens (registers new_floor ana visited visit))
      (practices (record new_floor { lobby = visited }) training (97 ∷ []) train))
