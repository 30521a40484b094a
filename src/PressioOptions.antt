-- ===== src/PressioOptions.antt =====
-- struct pressio_options of include/libpressio_ext/cpp/options.h and src/pressio_options.cc: a map
-- from keys to options.
pub mod Map
pub mod Access
pub mod Laws
pub mod Reads
