-- ===== src/Chunking.antt =====
-- The copy between a buffer and its blocks (src/plugins/compressors/chunking_impl.cc), and the plugin that
-- compresses the blocks (src/plugins/compressors/chunking.cc).
pub mod Blocks
pub mod Arith
pub mod Run
pub mod Loops
pub mod Copies
pub mod Plane
pub mod Volume
pub mod Inside
pub mod Undo
pub mod Sizes
pub mod RoundTrip
pub mod Generic
pub mod Plugin
pub mod Contigous
pub mod Unsplit
pub mod InPlace
pub mod Compress
pub mod Decompress
pub mod Views
pub mod Format
pub mod Chunks
pub mod PluginTrip
