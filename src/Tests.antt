-- ===== src/Tests.antt =====
-- The theorems at concrete inputs: games, packets, the table of sessions, whole sessions, the server
-- with its children, and the clients.
pub mod Games
pub mod Packets
pub mod Sending
pub mod Store
pub mod Sessions
pub mod Server
pub mod Restarts
pub mod Clients
pub mod Graphics
pub mod Connections
