-- ===== src/Matchmaking/Floor.antt =====
-- service.go: the side of the service that pairs players and starts their matches. The maps are
-- functions; a running match is an entry of `bouts`. Each call is one step. What is written to the
-- players and to the telemetry is left out, but for the time that they waited.
use terminal_wrestling_leagu.Common.{
  ℕ, zero, suc, ◌-◌, ◌/◌, Bool, true, false, ◌||◌, Option, none, some, is_some, List, [], ◌∷◌,
  if◌then◌else◌,
}
use terminal_wrestling_leagu.Common.Int.{ℤ}
use terminal_wrestling_leagu.Common.Text.{Str, str_eq, is_empty}
use terminal_wrestling_leagu.Lobby.{
  Lobby, LobbyError, Changed, changed, refused, put, new_lobby, join_queue, leave_queue,
  pop_next_pair, get_session,
}

-- A match of two players, and one against the computer.
pub data Bout : Type 0 where
  pvp : Str → Str → Bout
  practice : Str → Bout

pub record Floor : Type 0 where
  pub lobby : Lobby
  pub in_match : Str → Bool
  pub queue_joined_at : Str → Option ℕ
  pub bouts : List Bout

unfoldable pub new_floor : Floor
unfolding new_lobby
new_floor = record {
  lobby = new_lobby;
  in_match = λ id. false;
  queue_joined_at = λ id. none;
  bouts = [];
}

pub data Entered : Type 0 where
  entered : Floor → Entered
  already_in_match : Entered
  not_joined : LobbyError → Entered

pub data Started : Type 0 where
  started : Floor → Started
  id_required unregistered busy : Started

abbrev pub mark : (Str → Bool) → Str → Bool → Str → Bool
mark marks id value = λ key. if str_eq key id then value else marks key

-- The lobby after a call, which keeps it where it fails.
abbrev pub settled : Lobby → Changed → Lobby
settled lobby (changed next) = next
settled lobby (refused reason) = lobby

unfoldable pub note_joined : ℕ → Str → Floor → Lobby → Floor
note_joined now id floor lobby = record floor {
  lobby = lobby;
  queue_joined_at =
      if is_some (floor.queue_joined_at id)
      then floor.queue_joined_at
      else put floor.queue_joined_at id (some now);
}

abbrev pub enter_with : ℕ → Str → Floor → Changed → Entered
enter_with now id floor (changed lobby) = entered (note_joined now id floor lobby)
enter_with now id floor (refused reason) = not_joined reason

unfoldable pub enqueue : ℕ → Floor → Str → Entered
enqueue now floor id =
    if floor.in_match id
    then already_in_match
    else enter_with now id floor (join_queue now floor.lobby id)

-- The milliseconds since a time in nanoseconds; 0 where the clock went back.
abbrev pub wait_ms : ℕ → Option ℕ → ℕ
wait_ms now none = 0
wait_ms now (some joined) = (now - joined) / 1000000

unfoldable pub dequeue : ℕ → Floor → Str → ℕ × Floor
dequeue now floor id = (
  wait_ms now (floor.queue_joined_at id),
  record floor {
    queue_joined_at = put floor.queue_joined_at id none;
    lobby = settled floor.lobby (leave_queue floor.lobby id);
  },
)

unfoldable pub start_npc_match : Floor → Str → Started
start_npc_match floor id =
    if is_empty id
    then id_required
    else if is_some (get_session floor.lobby id)
    then if floor.in_match id
      then busy
      else started (record {
        lobby = settled floor.lobby (leave_queue floor.lobby id);
        in_match = mark floor.in_match id true;
        queue_joined_at = put floor.queue_joined_at id none;
        bouts = practice id ∷ floor.bouts;
      })
    else unregistered

unfoldable pub is_player_in_match : Floor → Str → Bool
is_player_in_match floor id = if is_empty id then false else floor.in_match id

unfoldable pub queue_wait_and_clear : ℕ → Floor → Str → ℕ × Floor
queue_wait_and_clear now floor id = (
  wait_ms now (floor.queue_joined_at id),
  record floor { queue_joined_at = put floor.queue_joined_at id none },
)

-- The loop over those who have waited too long.
unfoldable pub clear_timed_out : ℕ → Floor → List Str → Floor
clear_timed_out now floor [] = floor
clear_timed_out now floor (id ∷ ids) = clear_timed_out now (queue_wait_and_clear now floor id).1 ids

unfoldable pub release_players : List Str → Floor → Floor
release_players [] floor = floor
release_players (id ∷ ids) floor =
    release_players ids (record floor { in_match = mark floor.in_match id false })

unfoldable pub requeue_after_pair_failure : ℕ → Floor → Str → Floor
requeue_after_pair_failure now floor id = record floor {
  lobby = settled floor.lobby (join_queue now floor.lobby id);
}

-- Those of the two who are still there go back to the queue.
unfoldable pub requeue_if : Bool → ℕ → Floor → Str → Floor
requeue_if there now floor id =
    let back = requeue_after_pair_failure now floor id in if there then back else floor

unfoldable pub start_pair : ℕ → Floor → Str → Str → Floor
start_pair now floor a b =
    let taken : Floor = record floor { in_match = mark (mark floor.in_match a true) b true } in
    let there1 = is_some (get_session floor.lobby a) in
    let there2 = is_some (get_session floor.lobby b) in
    let freed = release_players (a ∷ b ∷ []) taken in
    let back = requeue_if there2 now (requeue_if there1 now freed a) b in
    if there1 then if there2 then record taken { bouts = pvp a b ∷ floor.bouts } else back else back

unfoldable pub seat_pair : ℕ → Floor → Option (Str × Str) → Floor
seat_pair now floor none = floor
seat_pair now floor (some (a, b)) =
    let waited = (queue_wait_and_clear now (queue_wait_and_clear now floor a).1 b).1 in
    let pair = start_pair now waited a b in
    if is_empty a || is_empty b || str_eq a b
    then floor
    else if waited.in_match a
    then waited
    else if waited.in_match b
    then waited
    else pair

unfoldable pub process_queue : ℕ → ℤ → Floor → Floor
process_queue now timeout floor =
    let (pair, timed_out, lobby) = pop_next_pair now timeout floor.lobby in
    seat_pair now (clear_timed_out now (record floor { lobby = lobby }) timed_out) pair

abbrev pub players_of : Bout → List Str
players_of (pvp a b) = a ∷ b ∷ []
players_of (practice a) = a ∷ []

abbrev pub without_bout : ℕ → List Bout → List Bout
without_bout i [] = []
without_bout zero (bout ∷ bouts) = bouts
without_bout (suc i) (bout ∷ bouts) = bout ∷ without_bout i bouts

abbrev pub bout_players : ℕ → List Bout → List Str
bout_players i [] = []
bout_players zero (bout ∷ bouts) = players_of bout
bout_players (suc i) (bout ∷ bouts) = bout_players i bouts

-- The end of the goroutine of a match: its players are free again.
unfoldable pub end_bout : ℕ → Floor → Floor
end_bout i floor =
    release_players (bout_players i floor.bouts)
      (record floor { bouts = without_bout i floor.bouts })
