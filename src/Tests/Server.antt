-- ===== src/Tests/Server.antt =====
-- Lines that a player sends.
use terminal_wrestling_leagu.Common.{
  ◌≡◌, refl, true, false, if◌then◌else◌, none, some, List, [], ◌∷◌,
}
use terminal_wrestling_leagu.Common.Text.{Str, bytes, str_eq}
use terminal_wrestling_leagu.Combat.Types.{action_strike, zone_head}
use terminal_wrestling_leagu.Server.{command_action}
use terminal_wrestling_leagu.Server.Commands.{parsed, parse_action_command}
use terminal_wrestling_leagu.Server.Handle.{Answers, shell_step}
use terminal_wrestling_leagu.Server.Gates.{StepAllowed, shell_step_allowed}
use terminal_wrestling_leagu.Server.Words.{action_word, zone_word, OnParsed, Spells, parse-spell}
use terminal_wrestling_leagu.Server.Guided.{Arrival, typed}
use terminal_wrestling_leagu.Common.Int.{pos, ltb_ℤ}
use terminal_wrestling_leagu.Common.Format.{trim_space, trim_left, trim_right}
use terminal_wrestling_leagu.Server.Config.{
  loaded, split_from, cut, set_user, parse_pairs, parse_users, seconds, load_config_from_env,
}
use terminal_wrestling_leagu.Server.Checked.{OnLoaded, IsUsable, load_config-IsUsable}
use terminal_wrestling_leagu.Server.Lines.{find_end, split_crlf, scan}

abbrev answers : Answers
answers = record {
  queue_allows = true;
  action_allows = true;
  enqueue_error = none;
  npc_error = none;
  watch_error = none;
  in_match = false;
  in_queue = false;
  input_has_room = true;
  online = 2;
  queued = 0;
  players = bytes "ana" ∷ bytes "bob" ∷ [];
}

shell_step_allowed_example :
    StepAllowed answers (some true) (shell_step answers (some true) (bytes "1"))
shell_step_allowed_example = shell_step_allowed answers (some true) (bytes "1")

parse-spell_example :
    (parse_action_command (bytes "a" ∷ action_word action_strike ∷ zone_word zone_head ∷ [])
      ≡ parsed (record { kind = command_action; action = action_strike; target = zone_head }))
    × ((words : List Str) → OnParsed (Spells words) (parse_action_command words))
parse-spell_example = parse-spell (bytes "a") action_strike zone_head [] tt tt

-- A line break that is cut in two.
abbrev chunks : List Str
chunks = (104 ∷ 13 ∷ []) ∷ (10 ∷ 113 ∷ []) ∷ (10 ∷ []) ∷ []

-- A limit of 4 bytes: the second line reaches it.
scan_test :
    scan 4 20 [] ((104 ∷ 105 ∷ 10 ∷ 97 ∷ 98 ∷ 99 ∷ 100 ∷ 10 ∷ []) ∷ []) false
    ≡ record { lines = (104 ∷ 105 ∷ []) ∷ []; too_long = true }
unfolding scan split_crlf find_end
scan_test = refl

abbrev pupil : List Arrival
pupil =
    typed (bytes "help")
    ∷ typed (bytes "what")
    ∷ typed (bytes "A  strike HEAD")
    ∷ typed (bytes "q")
    ∷ []

abbrev environment : Str → Str
environment = λ name.
    if str_eq name (bytes "TWL_SSH_USERS")
    then bytes "ana:pw, bob:secret"
    else if str_eq name (bytes "TWL_DATABASE_URL")
    then bytes "postgres://db"
    else []

load_config-IsUsable_example : OnLoaded IsUsable (load_config_from_env environment)
load_config-IsUsable_example = load_config-IsUsable environment

users_test :
    parse_users (bytes " ana : pw,,bob:a:b")
    ≡ loaded ((bytes "ana", bytes " pw") ∷ (bytes "bob", bytes "a:b") ∷ [])
unfolding parse_users parse_pairs split_from cut set_user trim_space trim_left trim_right str_eq
    bytes
users_test = refl

-- Many seconds are too many nanoseconds.
seconds_test : ltb_ℤ (seconds 9223372037) (pos 0) ≡ true
unfolding seconds
seconds_test = refl
