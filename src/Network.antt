-- ===== src/Network.antt =====
-- network/: the layer synchroniser, the buffers of links, and signed messages.
pub mod Sync
pub mod Buffer
pub mod Metadata
pub mod Message
pub mod Batching
