-- ===== src/Platform.antt =====
-- native/platform: what the parts of the engine run on.
pub mod Disk
pub mod Config
pub mod EngineLoop
pub mod WorkerPool
mod Tests
