-- ===== src/Groups.antt =====
-- Groups of the inputs and outputs of many runs: include/libpressio_ext/cpp/subgroup_manager.h and
-- src/plugins/compressors/many_independent.cc.
pub mod Subgroups
pub mod Responses
pub mod Arrival
