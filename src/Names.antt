-- ===== src/Names.antt =====
-- src/pressio_names.cc, namespace libpressio::names: the names of configurable objects are paths,
-- and an option set for a path holds for the paths below it.
pub mod Search
pub mod Ancestors
pub mod Termination
