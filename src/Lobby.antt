-- ===== src/Lobby.antt =====
-- internal/lobby/service.go: the sessions that are online and the queue. The two maps are functions of
-- the player id. Times are counts of nanoseconds; the time at hand is an argument. The queue is never
-- shared, so that the slices which reuse its memory are lists.
pub mod Agreed
pub mod Waiting
pub mod Refine
pub mod Pairs
pub mod Leaving
use terminal_wrestling_leagu.Common.{
  ℕ, ◌+◌, ◌-◌, Bool, true, false, Option, none, some, is_some, List, [], ◌∷◌, ◌++◌, if◌then◌else◌,
}
use terminal_wrestling_leagu.Common.Int.{ℤ, pos, sub_ℕ, ltb_ℤ, leb_ℤ}
use terminal_wrestling_leagu.Common.Text.{Str, str_eq, is_empty}

pub record Session : Type 0 where
  pub player_id : Str
  pub handle : Str

pub record Lobby : Type 0 where
  pub sessions : Str → Option Session
  pub queued_at : Str → Option ℕ
  pub queue : List Str

pub data LobbyError : Type 0 where
  player_id_required handle_required already_registered not_registered : LobbyError

pub data Changed : Type 0 where
  changed : Lobby → Changed
  refused : LobbyError → Changed

abbrev pub put : {T : Type 0} → (Str → Option T) → Str → Option T → Str → Option T
put entries id value = λ key. if str_eq key id then value else entries key

unfoldable pub new_lobby : Lobby
new_lobby = record { sessions = λ id. none; queued_at = λ id. none; queue = [] }

unfoldable pub register : Lobby → Session → Changed
register lobby session =
    if is_empty session.player_id
    then refused player_id_required
    else if is_empty session.handle
    then refused handle_required
    else if is_some (lobby.sessions session.player_id)
    then refused already_registered
    else changed (record lobby { sessions = put lobby.sessions session.player_id (some session) })

unfoldable pub without : Str → List Str → List Str
without id [] = []
without id (x ∷ xs) = let rest = without id xs in if str_eq x id then rest else x ∷ rest

unfoldable pub remove_queue_locked : Lobby → Str → Lobby
remove_queue_locked lobby id =
    if is_some (lobby.queued_at id)
    then record lobby { queued_at = put lobby.queued_at id none; queue = without id lobby.queue }
    else lobby

unfoldable pub unregister : Lobby → Str → Lobby
unregister lobby id =
    remove_queue_locked (record lobby { sessions = put lobby.sessions id none }) id

unfoldable pub join_queue : ℕ → Lobby → Str → Changed
join_queue now lobby id =
    if is_some (lobby.sessions id)
    then if is_some (lobby.queued_at id)
      then changed lobby
      else changed (record lobby {
        queued_at = put lobby.queued_at id (some now);
        queue = lobby.queue ++ (id ∷ []);
      })
    else refused not_registered

unfoldable pub leave_queue : Lobby → Str → Changed
leave_queue lobby id =
    if is_some (lobby.sessions id)
    then changed (remove_queue_locked lobby id)
    else refused not_registered

-- What the loop over the queue leaves.
pub record Expired : Type 0 where
  pub kept : List Str
  pub queued_at : Str → Option ℕ
  pub timed_out : List Str

unfoldable pub expire : ℕ → ℤ → (Str → Option ℕ) → List Str → Expired
expire now timeout queued_at [] = record { kept = []; queued_at = queued_at; timed_out = [] }
expire now timeout queued_at (x ∷ xs) =
    let gone = expire now timeout (put queued_at x none) xs in
    let stays = expire now timeout queued_at xs in
    elim (queued_at x) [
      | none ↦ stays
      | some at ↦
          if leb_ℤ timeout (sub_ℕ now at)
          then record gone { timed_out = x ∷ gone.timed_out }
          else record stays { kept = x ∷ stays.kept }
    ]

unfoldable pub expire_queue : ℕ → ℤ → Lobby → Lobby × List Str
expire_queue now timeout lobby =
    let e = expire now timeout lobby.queued_at lobby.queue in
    if ltb_ℤ (pos 0) timeout
    then (record lobby { queued_at = e.queued_at; queue = e.kept }, e.timed_out)
    else (lobby, [])

-- The first two in the queue, and the lobby without them.
unfoldable pub take_pair : Lobby → Option (Str × Str) × Lobby
take_pair lobby = elim lobby.queue [
  | [] ↦ (none, lobby)
  | x ∷ [] ↦ (none, lobby)
  | x ∷ y ∷ rest ↦ (
    some (x, y),
    record lobby { queued_at = put (put lobby.queued_at x none) y none; queue = rest },
  )
]

unfoldable pub pop_next_pair : ℕ → ℤ → Lobby → Option (Str × Str) × List Str × Lobby
pop_next_pair now timeout lobby =
    let (lobby', timed_out) = expire_queue now timeout lobby in
    let (pair, rest) = take_pair lobby' in (pair, timed_out, rest)

-- The loop that looks for a player in the queue, from the index `idx` on; 0 stands for no position.
unfoldable pub position_from : ℕ → Str → List Str → ℕ
position_from idx id [] = 0
position_from idx id (x ∷ xs) =
    let rest = position_from (idx + 1) id xs in if str_eq x id then idx + 1 else rest

-- Whether a player is in the queue, at which position, and since how long.
pub record QueueStatus : Type 0 where
  pub in_queue : Bool
  pub position : ℕ
  pub wait : ℤ

unfoldable pub queue_status : ℕ → Lobby → Str → QueueStatus
queue_status now lobby id = elim (lobby.queued_at id) [
  | none ↦ record { in_queue = false; position = 0; wait = pos 0 }
  | some at ↦ record {
    in_queue = true;
    position = position_from 0 id lobby.queue;
    wait = if ltb_ℤ (sub_ℕ now at) (pos 0) then pos 0 else sub_ℕ now at;
  }
]

unfoldable pub get_session : Lobby → Str → Option Session
get_session lobby id = lobby.sessions id
