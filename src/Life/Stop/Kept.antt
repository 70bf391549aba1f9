-- ===== src/Life/Stop/Kept.antt =====
-- dpdk.cpp: `stop_port` and `close_port` pass over a port that forwards, also when
-- `rmv_port_callback` calls them.
