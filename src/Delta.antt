-- ===== src/Delta.antt =====
-- The delta encoding of src/plugins/compressors/delta_encoding.cc on the elements of a buffer.
pub mod Codec
