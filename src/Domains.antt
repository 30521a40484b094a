-- ===== src/Domains.antt =====
-- Sending buffers between domains: src/pressio_domain.cc and
-- include/libpressio_ext/cpp/domain_manager.h.
pub mod Access
pub mod Hooks
pub mod Manager
pub mod Readable
pub mod Copied
