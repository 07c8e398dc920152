-- ===== src/Game.antt =====
-- src/server.c, the rules of the game, on the data of src/common/proto.h.
pub mod Defs
pub mod Rules
pub mod Turns
pub mod Ai
pub mod Damage
pub mod Spec
pub mod Invariant
pub mod Frame
pub mod Play
pub mod Hands
pub mod Handover
pub mod Choice
pub mod AiTurn
pub mod Ledger
