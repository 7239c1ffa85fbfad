-- ===== src/Tests.antt =====
-- Concrete matches on which the theorems are applied, and tests by evaluation.
mod Combat
mod Lobby
mod Machines
mod Matchmaking
mod Spectator
mod Animation
mod Server
mod Floor
mod Tutorial
mod Storage
mod Preserved
