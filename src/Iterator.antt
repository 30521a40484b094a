-- ===== src/Iterator.antt =====
-- Views of some elements of an array: src/multi_dimensional_iterator.h.
pub mod Range
pub mod Offset
pub mod Position
