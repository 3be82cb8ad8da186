-- ===== src/Server.antt =====
-- server/: sessions, members and connections. State holds the records and the monad of the handlers,
-- Sending what they send, Handlers and Dispatch the handlers themselves; the other children prove.
pub mod State
pub mod Sending
pub mod Handlers
pub mod Dispatch
pub mod Rules
pub mod Invariant
pub mod Frames
pub mod Soundness
pub mod Reachable
pub mod Draw
pub mod Sharing
pub mod Sessions
pub mod Departures
pub mod Discovery
pub mod Transport
