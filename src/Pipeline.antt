-- ===== src/Pipeline.antt =====
-- Compressors made of other compressors: src/plugins/compressors/pipeline.cc and resize.cc.
pub mod Store
pub mod Header
pub mod HeaderTrip
pub mod Compress
pub mod Decompress
pub mod Output
pub mod Chain
pub mod RoundTrip
pub mod Errors
pub mod Resize
