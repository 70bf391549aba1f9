-- ===== src/Fwd.antt =====
-- The forwarding configuration: lib/core/dpdk/config.c, with the structures of testpmd.h.
pub mod Types
pub mod Lcores
pub mod Topology
pub mod Setup
pub mod Defaults
pub mod Echo
pub mod Shared
