-- ===== src/Server/Commands.antt =====
-- ssh_server.go: `parseAction`, `parseZone` and `parseActionCommand`.
use terminal_wrestling_leagu.Common.{List, ◌∷◌, if◌then◌else◌}
use terminal_wrestling_leagu.Common.Text.{Str, bytes, str_eq}
use terminal_wrestling_leagu.Combat.Types.{
  Action, action_strike, action_grapple, action_block, action_dodge, action_counter, action_feint,
  action_break, Zone, zone_head, zone_torso, zone_legs,
}
use terminal_wrestling_leagu.Server.{Command, command_action}

pub data ParseError : Type 0 where
  usage : ParseError
  invalid_action invalid_zone : Str → ParseError

pub data Parsed (T : Type 0) : Type 0 where
  parsed : T → Parsed T
  failed : ParseError → Parsed T

infixl 5 ◌>>=◌
abbrev pub ◌>>=◌ : {T U : Type 0} → Parsed T → (T → Parsed U) → Parsed U
◌>>=◌ m next = elim m [ parsed value ↦ next value | failed reason ↦ failed reason ]

unfoldable pub parse_action : Str → Parsed Action
parse_action v =
    if str_eq v (bytes "strike")
    then parsed action_strike
    else if str_eq v (bytes "grapple")
    then parsed action_grapple
    else if str_eq v (bytes "block")
    then parsed action_block
    else if str_eq v (bytes "dodge")
    then parsed action_dodge
    else if str_eq v (bytes "counter")
    then parsed action_counter
    else if str_eq v (bytes "feint")
    then parsed action_feint
    else if str_eq v (bytes "break")
    then parsed action_break
    else failed (invalid_action v)

unfoldable pub parse_zone : Str → Parsed Zone
parse_zone v =
    if str_eq v (bytes "head")
    then parsed zone_head
    else if str_eq v (bytes "torso")
    then parsed zone_torso
    else if str_eq v (bytes "legs")
    then parsed zone_legs
    else failed (invalid_zone v)

-- Fields beyond the third are not looked at.
unfoldable pub parse_action_command : List Str → Parsed Command
parse_action_command (command ∷ action ∷ zone ∷ more) = do
  a ← parse_action action
  z ← parse_zone zone
  parsed (record { kind = command_action; action = a; target = z })
parse_action_command _ = failed usage
