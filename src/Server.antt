-- ===== src/Server.antt =====
-- server/: the envelopes that servers read, and the state of a server.
pub mod Envelopes
pub mod Checkpoint
pub mod Preparer
pub mod KeyTable
pub mod Onion
pub mod Paths
pub mod Routers
pub mod Sender
pub mod Establishment
pub mod Client
pub mod Rounds
pub mod Setup
pub mod Members
pub mod Handler
pub mod Pool
pub mod Lengths
