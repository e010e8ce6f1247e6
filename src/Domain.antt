-- ===== src/Domain.antt =====
-- native/domain
pub mod Content
pub mod Filter
pub mod Json
pub mod Codec
pub mod Classifier
pub mod Peer
pub mod Samples
mod Tests
pub mod Torrent
