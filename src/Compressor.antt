-- ===== src/Compressor.antt =====
-- The base class of the compressors.
pub mod Base
pub mod Metrics
pub mod Many
