-- ===== src/Tests.antt =====
-- Small runs of the modelled code, and the theorems at concrete inputs: two ports with two queues,
-- two forwarding cores, an allocator and drivers that answer.
pub mod Fwd
pub mod Select
pub mod Mcast
pub mod Flow
pub mod Segs
pub mod Ports
pub mod Life
pub mod Params
pub mod Launch
