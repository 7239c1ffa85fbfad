-- ===== src/Matchmaking.antt =====
-- internal/matchmaking/service.go: how a match is run.
pub mod Slots
pub mod Takeover
pub mod Ready
pub mod Collect
pub mod Seeds
pub mod Match
pub mod Floor
pub mod Exclusive
pub mod Running
pub mod Tutorial
pub mod Lesson
