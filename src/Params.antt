-- ===== src/Params.antt =====
-- lib/core/dpdk/parameters.c: the options of the command line.
pub mod Text
pub mod Items
pub mod Numa
pub mod Events
pub mod Options
pub mod Outcome
pub mod Rings
pub mod Forwarding
pub mod Memory
pub mod Offloads
pub mod Headers
pub mod Segments
pub mod Switches
pub mod Noisy
pub mod Start
pub mod Launch
