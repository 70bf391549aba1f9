-- ===== src/Params/Launch.antt =====
-- lib/core/dpdk/parameters.c, `launch_args_parse`. What `getopt_long` finds in `argv` is a list, and
-- `rest` is whether an argument is left after it.
pub mod Queues
pub mod Accepted
pub mod Finished
pub mod Modes
use udx_fastpath.Base.{
  ℕ, ◌^◌, Bool, true, false, ◌&&◌, ◌||◌, not, List, [], ◌∷◌, ltb, leb, ◌==◌, if◌then◌else◌, get_or,
}
use udx_fastpath.Segs.{State}
use udx_fastpath.Params.Text.{nonneg}
use udx_fastpath.Params.Outcome.{Outcome, next, returned, exit_success, exit_failure, and_then, put}
use udx_fastpath.Params.Options.{
  LongOption, help, ignored, stats_period, start, forward, memory, offload, queue, ring, segment,
  switch, mask, noisy, Found, short_i, short_a, short_h, unknown, long,
}
use udx_fastpath.Params.Start.{Start, StartEnv, start_option, stats_period_option}
use udx_fastpath.Params.Forwarding.{Forwarding, ForwardEnv, forward_option, queue_option}
use udx_fastpath.Params.Memory.{Memory, MpAlloc, alloc_anon, memory_option}
use udx_fastpath.Params.Offloads.{Offloads, OffloadMasks, offload_option, mask_option}
use udx_fastpath.Params.Rings.{Rings, ring_option}
use udx_fastpath.Params.Segments.{SegmentEnv, segment_option}
use udx_fastpath.Params.Switches.{Switches, SwitchEnv, switch_option}
use udx_fastpath.Params.Noisy.{Noisy, noisy_option}

-- The globals that the options write. `offloads` holds the two local masks; `rx_mode_offloads` and
-- `tx_mode_offloads` are the globals that they go to in the end. The fields of `segs` that another
-- part has are not read.
pub record Settings : Type 0 where
  pub starting : Start
  pub forwarding : Forwarding
  pub pools : Memory
  pub offloads : Offloads
  pub rings : Rings
  pub segs : State
  pub switches : Switches
  pub noise : Noisy
  pub rx_mode_offloads : ℕ
  pub tx_mode_offloads : ℕ

pub record LaunchEnv : Type 0 where
  pub start_env : StartEnv
  pub forward_env : ForwardEnv
  pub masks : OffloadMasks
  pub segment_env : SegmentEnv
  pub switch_env : SwitchEnv

-- `if (!nb_rxq && !nb_txq)`
unfoldable pub no_queue : Forwarding → Bool
no_queue f = f.fwd.nb_rxq == 0 && f.fwd.nb_txq == 0

abbrev pub segs_of : Settings → State
segs_of s = record (s.segs) {
  nb_txq = s.forwarding.fwd.nb_txq;
  mbuf_data_size = get_or s.pools.mbuf_data_size 0 0;
  nb_pkt_per_burst = s.rings.nb_pkt_per_burst;
}

-- The tests above the check of the numbers of queues.
unfoldable pub early : LaunchEnv → LongOption → Settings → Outcome Settings
unfolding start_option forward_option memory_option offload_option queue_option
early env (start o) s =
    put (λ x. record s { starting = x }) (start_option env.start_env o s.starting)
early env (forward o) s =
    put (λ x. record s { forwarding = x }) (forward_option env.forward_env o s.forwarding)
early env (memory o) s = put (λ x. record s { pools = x }) (memory_option o s.pools)
early env (offload o) s = next (record s { offloads = offload_option env.masks o s.offloads })
early env (queue o) s =
    put (λ x. record s { forwarding = x }) (queue_option env.forward_env.devices o s.forwarding)
early env _ s = next s

-- The tests below it.
unfoldable pub late : LaunchEnv → LongOption → Settings → Outcome Settings
unfolding ring_option segment_option switch_option mask_option noisy_option
late env (ring o) s =
    put (λ x. record s { rings = x }) (ring_option env.forward_env.devices o s.rings)
late env (segment o) s =
    put (λ x. record s { segs = x }) (segment_option env.segment_env o (segs_of s))
late env (switch o) s =
    put (λ x. record s { switches = x }) (switch_option env.switch_env o s.switches)
late env (mask o) s = put (λ x. record s { offloads = x }) (mask_option o s.offloads)
late env (noisy o) s = put (λ x. record s { noise = x }) (noisy_option o s.noise)
late env _ s = next s

unfoldable pub checked : LaunchEnv → LongOption → Settings → Outcome Settings
unfolding no_queue late
checked env o s = if no_queue s.forwarding then exit_failure else late env o s

-- `case 0`
unfoldable pub long_option : LaunchEnv → LongOption → Settings → Outcome Settings
unfolding early checked stats_period_option
long_option env help s = exit_success
long_option env (stats_period a) s = next (record s { starting = stats_period_option a s.starting })
long_option env o s = and_then (early env o s) (checked env o) (λ t. t)

unfoldable pub option : LaunchEnv → Found → Settings → Outcome Settings
unfolding long_option
option env short_i s = next (record s { starting = record (s.starting) { interactive = true } })
option env short_a s = next (record s { starting = record (s.starting) { auto_start = true } })
option env short_h s = exit_success
option env unknown s = exit_failure
option env (long o) s = long_option env o s

-- `proc_id >= (int)num_procs`
unfoldable pub proc_id_too_large : Switches → Bool
proc_id_too_large w =
    if nonneg w.proc_id
    then (if nonneg w.num_procs then leb w.num_procs w.proc_id else true)
    else (if nonneg w.num_procs then false else leb w.num_procs w.proc_id)

abbrev pub is_anon : MpAlloc → Bool
is_anon alloc_anon = true
is_anon _ = false

-- After the loop.
unfoldable pub finish : Bool → Settings → Outcome Settings
unfolding proc_id_too_large
finish rest s =
    if rest || proc_id_too_large s.switches
    then exit_failure
    else next (record s {
      rx_mode_offloads = s.offloads.rx_offloads;
      tx_mode_offloads = s.offloads.tx_offloads;
      switches = record (s.switches) {
        no_iova_contig = s.switches.no_iova_contig && is_anon s.pools.mp_alloc_type;
      };
    })

unfoldable pub options : LaunchEnv → List Found → Settings → Outcome Settings
unfolding option
options env [] s = next s
options env (o ∷ os) s = and_then (option env o s) (options env os) (λ t. t)

-- The local masks start from the modes of the ports.
abbrev pub with_modes : Settings → Settings
with_modes s = record s {
  offloads = record (s.offloads) {
    rx_offloads = s.rx_mode_offloads;
    tx_offloads = s.tx_mode_offloads;
  };
}

unfoldable pub launch_args_parse : LaunchEnv → List Found → Bool → Settings → Outcome Settings
unfolding options finish
launch_args_parse env found rest s =
    and_then (options env found (with_modes s)) (finish rest) (λ t. t)
