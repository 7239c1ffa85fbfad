-- ===== src/Tests/Spectator.antt =====
-- A hub with one match and one watcher.
use terminal_wrestling_leagu.Common.{◌≡◌, refl, true, some, [], ◌∷◌}
use terminal_wrestling_leagu.Common.Text.{str_eq}
use terminal_wrestling_leagu.Spectator.{
  Hub, attached, new_hub, register_match, add_watcher, attach, capacity, find_match, find_watcher,
  update_match,
}
use terminal_wrestling_leagu.Spectator.Uses.{uses}
use terminal_wrestling_leagu.Spectator.Channels.{
  Reach, starts, steps, registers, adds, IsNew, IsSingle, Reach-IsSingle,
}
use terminal_wrestling_leagu.Spectator.Capacity.{IsCapped, bound, Reach-IsCapped}
use terminal_wrestling_leagu.Spectator.Race.{watches}

abbrev watched : Hub
watched = record {
  matches =
      record { match_id = 109 ∷ []; watchers = record { watcher_id = 119 ∷ []; channel = 4 } ∷ [] }
      ∷ [];
  closed = [];
}

watched_added :
    add_watcher (register_match new_hub (109 ∷ [])) (109 ∷ []) (119 ∷ []) (some 4) 1
    ≡ attached watched
unfolding add_watcher attach register_match new_hub capacity find_match find_watcher update_match
    str_eq
watched_added = refl

unused : uses 4 (register_match new_hub (109 ∷ [])) ≡ 0
unfolding register_match new_hub find_match
unused = refl

abbrev watched-Reach : Reach 1 IsNew watched
watched-Reach = steps (steps starts (registers new_hub (109 ∷ []))) (
    adds (register_match new_hub (109 ∷ [])) watched (109 ∷ []) (119 ∷ []) 4
      (record { new = unused }) watched_added)

Reach-IsSingle_example : IsSingle watched
Reach-IsSingle_example = Reach-IsSingle watched-Reach

Reach-IsCapped_example : IsCapped (bound 1) watched
Reach-IsCapped_example = Reach-IsCapped 1 watched-Reach

-- The watcher is there, so that the second broadcast panics.
watches_test : watches watched (109 ∷ []) (119 ∷ []) ≡ true
unfolding find_match find_watcher str_eq
watches_test = refl
