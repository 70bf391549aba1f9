-- ===== src/Flow.antt =====
-- lib/core/dpdk/config.c, the objects of the flow API that a port keeps in linked lists: the numbers
-- of the objects and their allocation, and the pattern templates. A linked list is the list of its
-- nodes; a return code `n` stands for `-n`.
pub mod Nodes
pub mod Loops
pub mod Patterns
pub mod Tables
pub mod Rules
pub mod Actions
pub mod Tunnels
