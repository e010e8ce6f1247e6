-- ===== src/Engine.antt =====
-- native/engine: the services that run on the engine loop.
pub mod Replication
pub mod Feed
pub mod Indexer
pub mod Store
pub mod Voting
pub mod Crawler
pub mod Peers
pub mod Swarm
pub mod Trackers
pub mod PeerApi
pub mod Downloads
pub mod Samples
pub mod Sites
pub mod Sessions
mod Tests
