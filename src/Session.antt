-- ===== src/Session.antt =====
-- `run_session` of src/server.c: one connection, from the handshake to its end.
pub mod World
pub mod Handshake
pub mod Serve
pub mod Invariant
pub mod Duty
pub mod Serving
pub mod Greeting
pub mod Run
pub mod Durable
pub mod Backed
pub mod Resumption
pub mod Waiting
pub mod Login
pub mod Calls
pub mod Steps
pub mod Growth
pub mod Bounds
pub mod Bytes
pub mod Hostile
