-- ===== src/Select.antt =====
-- Choosing the cores and the ports that forward: lib/core/dpdk/config.c, the functions
-- `set_fwd_lcores_*`, `set_fwd_ports_*` and `parse_fwd_portlist`.
pub mod Platform
pub mod Cores
pub mod Ports
pub mod Strtol
pub mod PortList
