-- ===== src/Params/Memory.antt =====
-- lib/core/dpdk/parameters.c, `launch_args_parse`: the options on the memory pools, the lengths of
-- packets and the cores of the statistics.
use udx_fastpath.Base.{
  ℕ, Bool, true, false, ◌&&◌, Option, none, some, List, [], ◌∷◌, map, ltb, leb, if◌then◌else◌, take,
  overwrite, replicate, u8, u16,
}
use udx_fastpath.Segs.{max_segs_buffer_split}
use udx_fastpath.Params.Text.{codes, same, atoi, nonneg}
use udx_fastpath.Params.Items.{parse_item_list}
use udx_fastpath.Params.Outcome.{Outcome, next, exit_failure, accept}
use udx_fastpath.Params.Options.{
  MemoryOption, mp_anon, mp_alloc, mbuf_size, total_num_mbufs, max_pkt_len, max_lro_pkt_size,
  latencystats, bitrate_stats,
}

-- The values of `mp_alloc_type`.
pub data MpAlloc : Type 0 where
  alloc_native alloc_anon alloc_xmem alloc_xmem_huge alloc_xbuf : MpAlloc

-- MIN_TOTAL_NUM_MBUFS and RTE_ETHER_MIN_LEN
abbrev pub min_total_num_mbufs : ℕ
min_total_num_mbufs = 1024

abbrev pub ether_min_len : ℕ
ether_min_len = 64

pub record Memory : Type 0 where
  pub mp_alloc_type : MpAlloc
  pub mbuf_data_size : List ℕ
  pub mbuf_data_size_n : ℕ
  pub param_total_num_mbufs : ℕ
  pub max_rx_pkt_len : ℕ
  pub max_lro_pkt_size : ℕ
  pub latencystats_lcore_id : ℕ
  pub latencystats_enabled : Bool
  pub bitrate_lcore_id : ℕ
  pub bitrate_enabled : Bool

pub mp_alloc_of : List ℕ → Option MpAlloc
mp_alloc_of name =
    if same name (codes "native")
    then some alloc_native
    else if same name (codes "anon")
    then some alloc_anon
    else if same name (codes "xmem")
    then some alloc_xmem
    else if same name (codes "xmemhuge")
    then some alloc_xmem_huge
    else if same name (codes "xbuf")
    then some alloc_xbuf
    else none

pub with_mp_alloc : Option MpAlloc → Memory → Outcome Memory
with_mp_alloc none s = exit_failure
with_mp_alloc (some t) s = next (record s { mp_alloc_type = t })

-- The sizes are 1, ..., 65535.
pub sizes_ok : List ℕ → Bool
sizes_ok [] = true
sizes_ok (n ∷ ns) = (ltb 0 n && leb n 65535) && sizes_ok ns

pub with_mbuf_sizes : Option (ℕ × List ℕ) → Memory → Outcome Memory
unfolding sizes_ok
with_mbuf_sizes none s = exit_failure
with_mbuf_sizes (some (nb_segs, mb_sz)) s = accept (sizes_ok (take nb_segs mb_sz)) (record s {
  mbuf_data_size = overwrite s.mbuf_data_size (map u16 (take nb_segs mb_sz));
  mbuf_data_size_n = nb_segs;
})

unfoldable pub memory_option : MemoryOption → Memory → Outcome Memory
unfolding mp_alloc_of with_mp_alloc with_mbuf_sizes atoi parse_item_list
memory_option mp_anon s = next (record s { mp_alloc_type = alloc_anon })
memory_option (mp_alloc a) s = with_mp_alloc (mp_alloc_of a) s
memory_option (mbuf_size a) s =
    with_mbuf_sizes
      (parse_item_list a max_segs_buffer_split (replicate max_segs_buffer_split 0) false) s
memory_option (total_num_mbufs a) s =
    accept (nonneg (atoi a) && ltb min_total_num_mbufs (atoi a))
      (record s { param_total_num_mbufs = atoi a })
memory_option (max_pkt_len a) s =
    accept (nonneg (atoi a) && leb ether_min_len (atoi a)) (record s { max_rx_pkt_len = atoi a })
memory_option (max_lro_pkt_size a) s = next (record s { max_lro_pkt_size = atoi a })
memory_option (latencystats a) s =
    accept (nonneg (atoi a))
      (record s { latencystats_lcore_id = u8 (atoi a); latencystats_enabled = true })
memory_option (bitrate_stats a) s =
    accept (nonneg (atoi a)) (record s { bitrate_lcore_id = u8 (atoi a); bitrate_enabled = true })
