-- ===== src/Server/Handle.antt =====
-- ssh_server.go: `handleUserInputWithSession`, and the body of the loop of `runShell`. What the
-- matcher, the lobby, the limiters and the session's channel answer is in `Answers`; the telemetry
-- rows, whose errors are ignored, are left out.
use terminal_wrestling_leagu.Common.{
  ℕ, Bool, true, false, ◌||◌, Option, none, some, List, [], ◌∷◌, ◌++◌, map, if◌then◌else◌,
}
use terminal_wrestling_leagu.Common.Text.{Str, bytes, str_eq, is_empty}
use terminal_wrestling_leagu.Common.Format.{to_lower, trim_space, fields, join, equal_fold, decimal}
use terminal_wrestling_leagu.Combat.Types.{action_none, zone_head}
use terminal_wrestling_leagu.Server.{Command, command_quit}
use terminal_wrestling_leagu.Server.Commands.{
  ParseError, Parsed, parsed, failed, parse_action_command,
}
use terminal_wrestling_leagu.Server.Menu.{
  needs_tutorial, navigation_state, menu_selection_for_state,
}
use terminal_wrestling_leagu.Server.Input.{sanitize_input_line}

pub record Answers : Type 0 where
  pub queue_allows : Bool
  pub action_allows : Bool
  pub enqueue_error : Option Str
  pub npc_error : Option Str
  pub watch_error : Option Str
  pub in_match : Bool
  pub in_queue : Bool
  pub input_has_room : Bool
  pub online : ℕ
  pub queued : ℕ
  pub players : List Str

-- The calls that change the state of the matcher or of the match.
pub data Call : Type 0 where
  calls_enqueue calls_dequeue calls_npc_match : Call
  calls_watch : Str → Call
  calls_input : Command → Call

-- What the player is shown: lines, the reason why an action is not understood, the status, the menu.
pub data Shown : Type 0 where
  says : List Str → Shown
  explains : ParseError → Shown
  shows_status shows_menu : Shown

pub record Outcome : Type 0 where
  pub calls : List Call
  pub frames : List Shown
  pub stays : Bool

abbrev pub say : Str → Shown
say line = says (line ∷ [])

abbrev pub reply : List Call → List Shown → Outcome
reply calls frames = record { calls = calls; frames = frames; stays = true }

-- `sendStatusAndMenu`, deferred to the end of a branch.
abbrev pub status_and_menu : List Shown
status_and_menu = shows_status ∷ shows_menu ∷ []

abbrev complaint : Str → Option Str → List Shown
complaint prefix none = status_and_menu
complaint prefix (some reason) = say (prefix ++ reason) ∷ status_and_menu

unfoldable pub play : Answers → Option Bool → Outcome
play answers profile =
    if needs_tutorial profile
    then reply [] (
        say (
          bytes
            "tutorial required before queue: complete first-time tutorial or run `tutorial retry`")
        ∷ status_and_menu)
    else if answers.queue_allows
    then reply (calls_enqueue ∷ []) (complaint (bytes "queue error: ") answers.enqueue_error)
    else reply [] (say (bytes "queue rate limit reached") ∷ status_and_menu)

unfoldable pub play_npc : Answers → Option Bool → Outcome
play_npc answers profile =
    if needs_tutorial profile
    then reply [] (
        say (
          bytes
            "tutorial required before npc practice: complete first-time tutorial or run `tutorial retry`")
        ∷ status_and_menu)
    else reply (calls_npc_match ∷ []) (complaint (bytes "npc error: ") answers.npc_error)

unfoldable pub watch_player : Answers → List Str → Outcome
watch_player answers (command ∷ target ∷ more) =
    reply (calls_watch (trim_space target) ∷ [])
      (complaint (bytes "watch error: ") answers.watch_error)
watch_player answers _ = reply [] (say (bytes "usage: watch <handle>") ∷ status_and_menu)

-- The send to the session's channel, which a full channel refuses.
unfoldable pub offer : Answers → Command → List Call
offer answers command = if answers.input_has_room then calls_input command ∷ [] else []

unfoldable pub quit_session : Answers → Outcome
quit_session answers = record {
  calls = offer answers (record { kind = command_quit; action = action_none; target = zone_head });
  frames = say (bytes "bye") ∷ [];
  stays = false;
}

unfoldable pub submit_parsed : Answers → Parsed Command → Outcome
submit_parsed answers (failed reason) = reply [] (explains reason ∷ [])
submit_parsed answers (parsed command) =
    reply (offer answers command)
      (if answers.input_has_room then [] else say (bytes "input buffer full, action ignored") ∷ [])

unfoldable pub submit_action : Answers → List Str → Outcome
submit_action answers words = submit_parsed answers (parse_action_command (map to_lower words))

-- The branch "a", with its two guards.
unfoldable pub try_action : Answers → List Str → Outcome
try_action answers words =
    if answers.in_match
    then if answers.action_allows
      then submit_action answers words
      else reply [] (say (bytes "action rate limit reached") ∷ [])
    else reply [] (say (bytes "you are not in an active match") ∷ [])

unfoldable pub snapshot_lines : Answers → List Str
snapshot_lines answers =
    (bytes "online=" ++ (decimal answers.online ++ (bytes " in_queue=" ++ decimal answers.queued)))
    ∷ (bytes "players=" ++ join (bytes ",") answers.players)
    ∷ []

abbrev help_text : Str
help_text =
    bytes
      "Commands: menu, status, play, q, l, s, npc, a <action> <zone>, watch <handle>, tutorial retry, help, quit"

unfoldable pub dispatch : Answers → Option Bool → Str → List Str → Outcome
dispatch answers profile command words =
    if str_eq command (bytes "q") || str_eq command (bytes "play")
    then play answers profile
    else if str_eq command (bytes "l")
    then reply (calls_dequeue ∷ []) status_and_menu
    else if str_eq command (bytes "s")
    then reply [] (says (snapshot_lines answers) ∷ [])
    else if str_eq command (bytes "status")
    then reply [] (shows_status ∷ [])
    else if str_eq command (bytes "menu")
    then reply [] (shows_menu ∷ [])
    else if str_eq command (bytes "help")
    then reply [] (say help_text ∷ [])
    else if str_eq command (bytes "npc")
    then play_npc answers profile
    else if str_eq command (bytes "watch")
    then watch_player answers words
    else if str_eq command (bytes "quit") || str_eq command (bytes "exit")
    then quit_session answers
    else if str_eq command (bytes "a")
    then try_action answers words
    else reply [] (say (bytes "unknown command, type help") ∷ [])

-- The words of a line, the first of which is the command.
unfoldable pub handle_words : Answers → Option Bool → List Str → Outcome
handle_words answers profile [] = reply [] []
handle_words answers profile (command ∷ words) =
    dispatch answers profile (to_lower command) (command ∷ words)

unfoldable pub handle_user_input : Answers → Option Bool → Str → Outcome
handle_user_input answers profile line = handle_words answers profile (fields (trim_space line))

-- What a line makes the loop of `runShell` do: nothing, a hint, the tutorial, or a command.
pub data ShellStep : Type 0 where
  skips hints retries_tutorial : ShellStep
  handles : Outcome → ShellStep

unfoldable pub run_command : Answers → Option Bool → Str → ShellStep
run_command answers profile line =
    if equal_fold line (bytes "tutorial retry")
    then retries_tutorial
    else handles (handle_user_input answers profile line)

unfoldable pub run_choice : Answers → Option Bool → Str → Option (Str × Str) → ShellStep
run_choice answers profile line none = run_command answers profile line
run_choice answers profile line (some (command, key)) =
    if str_eq command (bytes "__action_hint") then hints else run_command answers profile command

unfoldable pub shell_step : Answers → Option Bool → Str → ShellStep
shell_step answers profile raw =
    let line = sanitize_input_line raw in
    let state = navigation_state profile answers.in_match answers.in_queue in
    if is_empty line
    then skips
    else run_choice answers profile line (menu_selection_for_state state line)
