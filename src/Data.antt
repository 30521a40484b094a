-- ===== src/Data.antt =====
-- struct pressio_data.
pub mod Defs
pub mod Sizes
pub mod Buffer
pub mod Select
pub mod SelectBounds
pub mod Shape
pub mod ForEach
pub mod Covers
