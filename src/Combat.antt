-- ===== src/Combat.antt =====
-- internal/combat: the data, rules, input order and resolver of one fight.
pub mod Types
pub mod Rules
pub mod Order
pub mod Hash
pub mod Fighter
pub mod Scene
pub mod Exchange
pub mod Turn
pub mod Steps
pub mod Rounds
pub mod Bounds
pub mod Frame
pub mod Ending
pub mod Canonical
pub mod Arrival
pub mod Stun
pub mod Total
pub mod Position
