-- ===== src/Spectator/Race.antt =====
-- A watcher that leaves while a broadcast is on its way.
use terminal_wrestling_leagu.Common.{Bool, false, ◌||◌, none, some, is_some, if◌then◌else◌}
use terminal_wrestling_leagu.Common.Text.{Str, is_empty}
use terminal_wrestling_leagu.Spectator.{Hub, find_match, find_watcher}

-- Whether the match has a watcher of this id.
abbrev pub watches : Hub → Str → Str → Bool
watches hub match_id watcher_id =
    let found : Bool = elim (find_match match_id hub.matches) [
      | none ↦ false
      | some ws ↦ is_some (find_watcher watcher_id ws)
    ] in
    if is_empty match_id || is_empty watcher_id then false else found
