-- ===== src/Throttle.antt =====
-- The parts of src/common that fit a transfer to the network.
pub mod ChunkSizeManager
pub mod BandwidthLimiter
pub mod Tests
