-- ===== src/Lib.antt =====
-- A verification library for the DPDK part of udx-fastpath: what lib/core/dpdk/config.c decides,
-- the command line of lib/core/dpdk/parameters.c, and the life cycle of the ports in
-- lib/core/dpdk/dpdk.cpp.
--
-- The program keeps its configuration in globals and in `ports[]`. A model passes the part of it
-- that the code reads and writes as a record from call to call; DPDK, the allocator and the drivers
-- are parameters that answer. `none` is a fault: an access out of bounds, a division by 0 or the
-- end of the process. Messages that are printed are left out, and numbers are natural numbers with
-- C's wrap-around written out.
--
--   * Base: lists as C arrays, Boolean tests, words, options as fallible steps.
--   * Fwd: `simple_fwd_config_setup`, `rss_fwd_config_setup`, `fwd_config_setup`,
--     `setup_fwd_config_of_each_lcore` and `fwd_topology_tx_port_get`, with `init_fwd_streams` of
--     dpdk.cpp, `icmp_echo_config_setup` in Fwd.Echo, the check of shared queues in Fwd.Shared, and
--     the defaults of dpdk.cpp in Fwd.Defaults. They turn the chosen cores and ports into streams
--     and deal these out to the cores. Fwd.Types has the structures of lib/core/dpdk/testpmd.h and
--     the globals.
--   * Select: the functions that choose those cores and ports (`set_fwd_lcores_*`,
--     `set_fwd_ports_*`, `parse_port_list`, `parse_fwd_portlist`). Select.Strtol is the C library's
--     `strtol`. The parser's loop has fuel, a round for each byte and one more: each round takes at
--     least one byte.
--   * Mcast: the pool of multicast addresses of a port and its agreement with the driver's list. A
--     block of memory that `realloc` gives is a list; entries past the count have no meaning.
--   * Flow: the linked lists of the flow API's objects. Flow.Nodes is the choice of a number and
--     the insertion in falling order, Flow.Loops the loops of the `_destroy` and `_flush`
--     functions, Flow.Patterns the templates of patterns and actions, Flow.Tables the tables made
--     of these, and Flow.Rules the rules and their listing, Flow.Actions the indirect actions and
--     Flow.Tunnels the tunnels. The driver's state is a type of its own, and each call of the
--     driver yields a next state and an answer.
--   * Segs: the setters of packet segments (`set_rx_pkt_*`, `set_tx_pkt_segments`), which check
--     lengths against the buffers and, in Segs.Rings, against the sizes of the transmit rings.
--   * Mtu: `port_mtu_set` and the check of an MTU against the limits of the device.
--   * Gro: `setup_gro`, `setup_gro_flush_cycles` and `setup_gso`.
--   * Dump: `set_verbose_level` and the callbacks that it adds to the queues or removes.
--   * Vlan: the VLAN settings. A word of flags is the list of its bits.
--   * Limits: the limits of the devices on the numbers of queues and descriptors, in dpdk.cpp.
--   * Params: `launch_args_parse`. Params.Options is a data type of the options, and what
--     `getopt_long` finds is a list of them; each of Params.Start, Params.Forwarding,
--     Params.Memory, Params.Offloads, Params.Rings, Params.Segments, Params.Switches and
--     Params.Noisy has a group of options with the globals they write, and Params.Launch puts them
--     together: the options run one after the other on the globals, and an outcome says whether the
--     parser goes on, returns or ends the process. The parsers that it calls are with their
--     options; Params.Items and Params.Headers are the lists of lib/core/dpdk/util.c, Params.Numa
--     the sockets of ports and rings, and Params.Text what the C library does (`strtoul`, `atoi`,
--     `strchr`). An `int` is its 32 bits. The loops of Params.Numa have fuel, a round for each byte
--     and one more: each round moves forward. The build is one with RTE_LIB_CMDLINE,
--     RTE_LIB_LATENCYSTATS and RTE_LIB_BITRATESTATS.
--   * Life: the status of the ports. Life.Start is `start_port`, with the set-up of the queues in
--     Life.Queues; Life.Detach has the detachment and the state of the queues; Life.Stop has
--     `stop_port`, `close_port`, `reset_port`, `detach_device` and `eth_event_callback`, and
--     Life.Callback has `rmv_port_callback`, with `start_packet_forwarding` as far as it changes
--     ports. What the devices answer is a parameter, and may be another one at each call.
--   * Conf: the configuration of ports and queues in dpdk.cpp (`init_config_port_offloads`,
--     `rxtx_port_config`, `init_port_config`), and in Conf.Attach the ports of a device that is
--     probed while the program runs.
--   * Tests: small runs, and the theorems at concrete inputs.
--
-- Not modelled: of config.c, the queue operations of the flow API, the creation of indirect
-- actions, `dcb_fwd_config_setup`, which nothing calls, the printing of statistics and device
-- information, and what only passes a call on to DPDK; lib/core/dpdk/bpf_cmd.c; of dpdk.cpp, the
-- memory pools, `init_config`, the forwarding loop and, at the end of `start_port`, the binding of
-- hairpin ports; CNDP, TAP and the applications.
pub mod Base
pub mod Fwd
pub mod Select
pub mod Mcast
pub mod Flow
pub mod Segs
pub mod Mtu
pub mod Vlan
pub mod Dump
pub mod Gro
pub mod Limits
pub mod Params
pub mod Life
pub mod Conf
pub mod Tests
