-- ===== src/Server.antt =====
-- cmd/server/ssh_server.go: what a player types, and what the server makes of it. Texts are bytes;
-- letters and white space are ASCII's.
pub mod Commands
pub mod Menu
pub mod Input
pub mod Handle
pub mod Gates
pub mod Guided
pub mod Pupil
pub mod Config
pub mod Ensurer
pub mod Ensured
pub mod Checked
pub mod Words
pub mod Lines
pub mod Breaks
pub mod Reads
pub mod Scanning
pub mod Typed
pub mod Reassembly
use terminal_wrestling_leagu.Common.{ℕ, Bool, true, Option, List}
use terminal_wrestling_leagu.Common.Text.{Str}
use terminal_wrestling_leagu.Combat.Types.{Action, Zone}

-- The kinds of command that the server makes.
pub data CommandKind : Type 0 where
  command_action command_quit : CommandKind

-- A command without the time at which it was received.
pub record Command : Type 0 where
  pub kind : CommandKind
  pub action : Action
  pub target : Zone

pub data NavigationState : Type 0 where
  navigation_tutorial navigation_lobby navigation_queue navigation_match : NavigationState
  navigation_spectator : NavigationState
