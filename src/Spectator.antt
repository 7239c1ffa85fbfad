-- ===== src/Spectator.antt =====
-- internal/spectator/hub.go: who watches which match. A channel is a number, the two maps are
-- association lists, and `closed` logs each `close` of a channel.
pub mod Uses
pub mod Channels
pub mod Capacity
pub mod Race
use terminal_wrestling_leagu.Common.{
  ℕ, ◌≤◌, Bool, true, false, ◌&&◌, ◌||◌, Option, none, some, is_some, List, [], ◌∷◌, ◌++◌, map, leb,
  if◌then◌else◌, length, ◌==◌,
}
use terminal_wrestling_leagu.Common.Text.{Str, str_eq, is_empty}

pub record Watcher : Type 0 where
  pub watcher_id : Str
  pub channel : ℕ

pub record WatchedMatch : Type 0 where
  pub match_id : Str
  pub watchers : List Watcher

pub record Hub : Type 0 where
  pub matches : List WatchedMatch
  pub closed : List ℕ

pub data HubError : Type 0 where
  arguments_required match_not_active already_attached capacity_reached : HubError

pub data Attached : Type 0 where
  attached : Hub → Attached
  rejected : HubError → Attached

unfoldable pub new_hub : Hub
new_hub = record { matches = []; closed = [] }

unfoldable pub find_match : Str → List WatchedMatch → Option (List Watcher)
find_match id [] = none
find_match id (m ∷ ms) = if str_eq m.match_id id then some m.watchers else find_match id ms

unfoldable pub find_watcher : Str → List Watcher → Option ℕ
find_watcher id [] = none
find_watcher id (w ∷ ws) = if str_eq w.watcher_id id then some w.channel else find_watcher id ws

unfoldable pub delete_match : Str → List WatchedMatch → List WatchedMatch
delete_match id [] = []
delete_match id (m ∷ ms) = if str_eq m.match_id id then ms else m ∷ delete_match id ms

unfoldable pub delete_watcher : Str → List Watcher → List Watcher
delete_watcher id [] = []
delete_watcher id (w ∷ ws) = if str_eq w.watcher_id id then ws else w ∷ delete_watcher id ws

-- A write to the watchers of a match, which the map of the match shares.
unfoldable pub update_match :
    Str → (List Watcher → List Watcher) → List WatchedMatch → List WatchedMatch
update_match id f [] = []
update_match id f (m ∷ ms) =
    if str_eq m.match_id id
    then record m { watchers = f m.watchers } ∷ ms
    else m ∷ update_match id f ms

abbrev pub channels : List Watcher → List ℕ
channels = map (λ (w : Watcher). w.channel)

unfoldable pub register_match : Hub → Str → Hub
register_match hub id =
    if is_empty id
    then hub
    else if is_some (find_match id hub.matches)
    then hub
    else record hub { matches = record { match_id = id; watchers = [] } ∷ hub.matches }

-- A missing match has no watchers to close, and deleting it changes nothing.
unfoldable pub unregister_match : Hub → Str → Hub
unregister_match hub id =
    let without : Hub = elim (find_match id hub.matches) [
      | none ↦ hub
      | some ws ↦ record {
        matches = delete_match id hub.matches;
        closed = channels ws ++ hub.closed;
      }
    ] in
    if is_empty id then hub else without

-- A bound that is not positive stands for 20. The bound is a number here: a negative one is as 0.
unfoldable pub capacity : ℕ → ℕ
capacity max_per_match = if max_per_match == 0 then 20 else max_per_match

-- What follows the lookup of the match.
unfoldable pub attach : Hub → Str → Str → ℕ → ℕ → List Watcher → Attached
attach hub match_id watcher_id channel cap ws =
    if is_some (find_watcher watcher_id ws)
    then rejected already_attached
    else if leb cap (length ws)
    then rejected capacity_reached
    else attached (record hub {
      matches =
          update_match match_id (λ ws. record { watcher_id = watcher_id; channel = channel } ∷ ws)
            hub.matches;
    })

-- A nil channel is `none`.
unfoldable pub add_watcher : Hub → Str → Str → Option ℕ → ℕ → Attached
add_watcher hub match_id watcher_id channel max_per_match = elim channel [
  | none ↦ rejected arguments_required
  | some ch ↦
      let found : Attached = elim (find_match match_id hub.matches) [
        | none ↦ rejected match_not_active
        | some ws ↦ attach hub match_id watcher_id ch (capacity max_per_match) ws
      ] in
      if is_empty match_id || is_empty watcher_id then rejected arguments_required else found
]

unfoldable pub detach : Hub → Str → Str → List Watcher → Hub
detach hub match_id watcher_id ws = elim (find_watcher watcher_id ws) [
  | none ↦ hub
  | some ch ↦ record {
    matches = update_match match_id (delete_watcher watcher_id) hub.matches;
    closed = ch ∷ hub.closed;
  }
]

unfoldable pub remove_watcher : Hub → Str → Str → Hub
remove_watcher hub match_id watcher_id =
    let found : Hub = elim (find_match match_id hub.matches) [
      | none ↦ hub
      | some ws ↦ detach hub match_id watcher_id ws
    ] in
    if is_empty match_id || is_empty watcher_id then hub else found

-- The channels that a broadcast copies under the lock.
unfoldable pub clone_channels : Hub → Str → List ℕ
clone_channels hub match_id = elim (find_match match_id hub.matches) [
  | none ↦ []
  | some ws ↦ channels ws
]

abbrev pub is_member : ℕ → List ℕ → Bool
is_member ch [] = false
is_member ch (c ∷ chs) = c == ch || is_member ch chs

-- What the sends come to: the channels that got the payload, or the panic of a send on a closed one.
pub data Sent : Type 0 where
  sent : List ℕ → Sent
  panicked : Sent

abbrev pub is_panic : Sent → Bool
is_panic (sent chs) = false
is_panic panicked = true

-- The sends, after the lock. In a `select` a send on a closed channel is ready, and panics; a channel
-- without room is passed over.
unfoldable pub send_all : List ℕ → (ℕ → Bool) → List ℕ → Sent
send_all closed room [] = sent []
send_all closed room (ch ∷ chs) =
    let later : Sent = elim (send_all closed room chs) [
      | panicked ↦ panicked
      | sent got ↦ sent (if room ch then ch ∷ got else got)
    ] in
    if is_member ch closed then panicked else later

-- The hub at the copy, and the hub at the sends, which other calls may have changed in between.
unfoldable pub broadcast : Hub → Hub → (ℕ → Bool) → Str → List Str → Sent
broadcast hub now room match_id [] = sent []
broadcast hub now room match_id (line ∷ lines) =
    if is_empty match_id then sent [] else send_all now.closed room (clone_channels hub match_id)

unfoldable pub count_watchers : Hub → Str → ℕ
count_watchers hub match_id = elim (find_match match_id hub.matches) [
  | none ↦ 0
  | some ws ↦ length ws
]
