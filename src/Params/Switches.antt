-- ===== src/Params/Switches.antt =====
-- lib/core/dpdk/parameters.c, `parse_link_speed` and the options of `launch_args_parse` that set one
-- global each.
use udx_fastpath.Base.{
  ℕ, Bool, true, false, ◌&&◌, Option, none, some, List, ltb, leb, ◌==◌, if◌then◌else◌, u32,
  uint32_max,
}
use Prim.Native.Nat.{bit_or}
use udx_fastpath.Params.Text.{atoi, strtoul, nonneg}
use udx_fastpath.Params.Events.{Event, parse_event_printing_config}
use udx_fastpath.Params.Outcome.{Outcome, next, exit_failure, accept}
use udx_fastpath.Params.Options.{
  SwitchOption, multi_rx_mempool, txonly_multi_flow, no_flush_rx, disable_link_check,
  disable_device_start, no_lsc_interrupt, no_rmv_interrupt, flow_isolate_all, disable_flow_flush,
  hot_plug, mlockall, no_mlockall, no_iova_contig, record_core_cycles, record_burst_stats,
  rxq_share, eth_link_speed, print_event, mask_event, rx_mq_mode, num_procs, proc_id,
}

pub record Switches : Type 0 where
  pub multi_rx_mempool : Bool
  pub txonly_multi_flow : Bool
  pub no_flush_rx : Bool
  pub no_link_check : Bool
  pub no_device_start : Bool
  pub lsc_interrupt : Bool
  pub rmv_interrupt : Bool
  pub flow_isolate_all : Bool
  pub no_flow_flush : Bool
  pub hot_plug : Bool
  pub do_mlockall : Bool
  pub no_iova_contig : Bool
  pub record_core_cycles : Bool
  pub record_burst_stats : Bool
  pub rxq_share : ℕ
  pub eth_link_speed : ℕ
  pub event_print_mask : ℕ
  pub rx_mq_mode : ℕ
  pub num_procs : ℕ
  pub proc_id : ℕ

-- The numbers of rte_ethdev.h: the events, RTE_ETH_LINK_SPEED_FIXED, and the RTE_ETH_LINK_SPEED_*
-- of a number of megabits.
pub record SwitchEnv : Type 0 where
  pub event_number : Event → ℕ
  pub speed_fixed : ℕ
  pub speed_mask : ℕ → ℕ

-- RTE_ETH_MQ_RX_VMDQ_DCB_RSS
abbrev pub mq_rx_max : ℕ
mq_rx_max = 7

pub speed_known : ℕ → Bool
speed_known n =
    if n == 1000
    then true
    else if n == 2500
    then true
    else if n == 5000
    then true
    else if n == 10000
    then true
    else if n == 25000
    then true
    else if n == 40000
    then true
    else if n == 50000
    then true
    else if n == 100000
    then true
    else if n == 200000
    then true
    else n == 400000

pub parse_link_speed : SwitchEnv → ℕ → ℕ
unfolding speed_known
parse_link_speed env n = if speed_known n then bit_or env.speed_fixed (env.speed_mask n) else 0

pub with_events : Option ℕ → Switches → Outcome Switches
with_events none s = exit_failure
with_events (some word) s = next (record s { event_print_mask = word })

pub rxq_share_option : Option (List ℕ) → Switches → Outcome Switches
unfolding atoi
rxq_share_option none s = next (record s { rxq_share = uint32_max })
rxq_share_option (some a) s = accept (nonneg (atoi a)) (record s { rxq_share = atoi a })

unfoldable pub switch_option : SwitchEnv → SwitchOption → Switches → Outcome Switches
unfolding rxq_share_option parse_link_speed with_events atoi strtoul parse_event_printing_config
switch_option env multi_rx_mempool s = next (record s { multi_rx_mempool = true })
switch_option env txonly_multi_flow s = next (record s { txonly_multi_flow = true })
switch_option env (rxq_share a) s = rxq_share_option a s
switch_option env no_flush_rx s = next (record s { no_flush_rx = true })
switch_option env (eth_link_speed a) s =
    if nonneg (atoi a) && ltb 0 (parse_link_speed env (atoi a))
    then next (record s { eth_link_speed = parse_link_speed env (atoi a) })
    else next s
switch_option env disable_link_check s = next (record s { no_link_check = true })
switch_option env disable_device_start s = next (record s { no_device_start = true })
switch_option env no_lsc_interrupt s = next (record s { lsc_interrupt = false })
switch_option env no_rmv_interrupt s = next (record s { rmv_interrupt = false })
switch_option env flow_isolate_all s = next (record s { flow_isolate_all = true })
switch_option env disable_flow_flush s = next (record s { no_flow_flush = true })
switch_option env (print_event a) s =
    with_events (parse_event_printing_config env.event_number a true s.event_print_mask) s
switch_option env (mask_event a) s =
    with_events (parse_event_printing_config env.event_number a false s.event_print_mask) s
switch_option env hot_plug s = next (record s { hot_plug = true })
switch_option env mlockall s = next (record s { do_mlockall = true })
switch_option env no_mlockall s = next (record s { do_mlockall = false })
switch_option env no_iova_contig s = next (record s { no_iova_contig = true })
switch_option env (rx_mq_mode a) s =
    accept (leb (u32 (strtoul 16 a).value) mq_rx_max)
      (record s { rx_mq_mode = u32 (strtoul 16 a).value })
switch_option env record_core_cycles s = next (record s { record_core_cycles = true })
switch_option env record_burst_stats s = next (record s { record_burst_stats = true })
switch_option env (num_procs a) s = next (record s { num_procs = atoi a })
switch_option env (proc_id a) s = next (record s { proc_id = atoi a })
