-- ===== src/Server/Menu.antt =====
-- ssh_server.go: where a player is, the menu shown there and the choices it offers.
use terminal_wrestling_leagu.Common.{
  Bool, true, false, Option, none, some, List, [], ◌∷◌, if◌then◌else◌,
}
use terminal_wrestling_leagu.Common.Text.{Str, bytes, str_eq}
use terminal_wrestling_leagu.Common.Format.{trim_space}
use terminal_wrestling_leagu.Server.{
  NavigationState, navigation_tutorial, navigation_lobby, navigation_queue, navigation_match,
  navigation_spectator,
}

-- Whether the tutorial is still to be done; without a profile it is not.
abbrev pub needs_tutorial : Option Bool → Bool
needs_tutorial none = false
needs_tutorial (some completed) = if completed then false else true

-- The profile's `TutorialCompleted`, and what the matcher and the lobby say.
unfoldable pub navigation_state : Option Bool → Bool → Bool → NavigationState
navigation_state profile in_match in_queue =
    if needs_tutorial profile
    then navigation_tutorial
    else if in_match
    then navigation_match
    else if in_queue
    then navigation_queue
    else navigation_lobby

unfoldable pub menu_lines_for_state : NavigationState → List Str
menu_lines_for_state navigation_tutorial =
    bytes "menu[tutorial]: [1] tutorial retry  [2] help  [3] quit" ∷ []
menu_lines_for_state navigation_queue =
    bytes "menu[queue]: [1] leave queue  [2] status  [3] help  [4] quit" ∷ []
menu_lines_for_state navigation_match = bytes "menu[match]: [1] action hint" ∷ []
menu_lines_for_state navigation_spectator = bytes "menu[spectator]: [1] help" ∷ []
menu_lines_for_state navigation_lobby =
    bytes "menu[lobby]: [1] play  [2] npc  [3] status  [4] help  [5] quit" ∷ []

-- The first entry of a list of choices that has the key.
unfoldable pub choose_option : Str → List (Str × Str) → Option (Str × Str)
choose_option key [] = none
choose_option key ((k, command) ∷ choices) =
    let rest = choose_option key choices in if str_eq key k then some (command, key) else rest

abbrev pub options_of : NavigationState → List (Str × Str)
options_of navigation_tutorial =
    (bytes "1", bytes "tutorial retry") ∷ (bytes "2", bytes "help") ∷ (bytes "3", bytes "quit") ∷ []
options_of navigation_lobby =
    (bytes "1", bytes "play")
    ∷ (bytes "2", bytes "npc")
    ∷ (bytes "3", bytes "status")
    ∷ (bytes "4", bytes "help")
    ∷ (bytes "5", bytes "quit")
    ∷ []
options_of navigation_queue =
    (bytes "1", bytes "l")
    ∷ (bytes "2", bytes "status")
    ∷ (bytes "3", bytes "help")
    ∷ (bytes "4", bytes "quit")
    ∷ []
options_of navigation_match = (bytes "1", bytes "__action_hint") ∷ []
options_of navigation_spectator = (bytes "1", bytes "help") ∷ []

-- The command that a choice stands for, and the choice.
unfoldable pub menu_selection_for_state : NavigationState → Str → Option (Str × Str)
menu_selection_for_state state raw = choose_option (trim_space raw) (options_of state)
