-- ===== src/Gro/Cycles.antt =====
-- config.c, `setup_gro_flush_cycles`: its range.
use udx_fastpath.Base.{ℕ, ◌≤◌, arith}
use udx_fastpath.Gro.{default_flush_cycles, max_flush_cycles, setup_gro_flush_cycles}

pub setup_gro_flush_cycles-range :
    (cycles : ℕ)
    → (default_flush_cycles ≤ setup_gro_flush_cycles cycles)
      × (setup_gro_flush_cycles cycles ≤ max_flush_cycles)
unfolding setup_gro_flush_cycles
setup_gro_flush_cycles-range cycles = (ground arith, ground arith)
