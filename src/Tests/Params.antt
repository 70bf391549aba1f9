-- ===== src/Tests/Params.antt =====
-- Command lines for two ports: lib/core/dpdk/parameters.c and the list parsers of util.c.
use udx_fastpath.Base.{
  ℕ, ◌≤◌, ◌<◌, ◌≡◌, ◌≢◌, refl, Bool, true, false, ◌&&◌, List, [], ◌∷◌, some, none, arith, ltb, ◌==◌,
  if◌then◌else◌, get_elem?, take, length, replicate,
}
use udx_fastpath.Fwd.Types.{State}
use udx_fastpath.Tests.Select.{three_ports, wide, cores_six}
use udx_fastpath.Tests.Life.{devices}
use udx_fastpath.Select.Platform.{contains, test_bit, port_id_is_invalid}
use udx_fastpath.Select.Strtol.{skip_space}
use udx_fastpath.Params.Text.{
  codes, strchr, strtoul, unsigned_signed, unsigned_number, based, with_prefix, hex_prefix,
  read_base,
}
use udx_fastpath.Fwd.Setup.{new_socket_id}
use udx_fastpath.Params.Items.{parse_item_list}
use udx_fastpath.Params.Items.Read.{parse_item_list-join}
use mathlib.Core.Option
use udx_fastpath.Params.Headers.{PtypeMasks, get_ptype, pieces, nonempty, strtok, parse_hdrs_list}
use udx_fastpath.Params.Headers.Names.{Header, header_name, layers, or_all}
use udx_fastpath.Params.Headers.Room.{parse_hdrs_list_lem}
use udx_fastpath.Params.Events.{
  Event, unknown, intr_lsc, queue_state, intr_reset, vf_mbox, macsec, intr_rmv, dev_probed,
  dev_released, ipsec, flow_aged, err_recovering, recovery_success, recovery_failed, all, event_of,
  event_mask, write_event, with_event, parse_event_printing_config,
}
use udx_fastpath.Params.Events.Bits.{name_of, speaks_of, parse_event_printing_config_lem}
use udx_fastpath.Params.Numa.{
  Numa, Strsplit, groups, round, at_paren, with_group, with_fields, after_body, fields, int_fields,
  closing, portnuma_group, check_port, record_socket, with_port_numa, parse_portnuma_config,
}
use udx_fastpath.Params.Numa.Total.{parse_portnuma_config-total}
use udx_fastpath.Params.Numa.Sockets.{IsNuma}
use udx_fastpath.Params.Numa.Kept.{parse_portnuma_config-IsNuma}
use udx_fastpath.Params.Outcome.{next}
use udx_fastpath.Params.Forwarding.{parse_fwd_coremask}
use udx_fastpath.Params.Forwarding.Masks.{parse_fwd_coremask-chooses}
use udx_fastpath.Params.Rings.{Rings, burst_option}
use udx_fastpath.Params.Rings.Ranges.{burst_option-range}
use udx_fastpath.Segs.{max_pkt_burst}

abbrev put_front : ℕ → List (List ℕ) → List (List ℕ)
put_front c [] = (c ∷ []) ∷ []
put_front c (t ∷ ts) = (c ∷ t) ∷ ts

-- `rte_strsplit` of a text with no more than `n` tokens.
abbrev cut_at : ℕ → List ℕ → List (List ℕ)
cut_at delim [] = [] ∷ []
cut_at delim (c ∷ cs) = if c == delim then [] ∷ cut_at delim cs else put_front c (cut_at delim cs)

abbrev pub split : Strsplit
split s n delim = cut_at delim s

-- "12,7"
parse_item_list-join_example :
    (out : List ℕ) × (parse_item_list (codes "12,7") 8 (replicate 8 0) false ≡ some (2, out))
    × (take 2 out ≡ 12 ∷ 7 ∷ [])
parse_item_list-join_example =
    parse_item_list-join 8 (codes "12") (codes "7" ∷ []) (replicate 8 0)
      ((omega arith, (refl, (refl, tt))), ((omega arith, (refl, tt)), tt)) (omega arith)
      (omega arith) (omega arith)

abbrev pub ptypes : PtypeMasks
ptypes = record {
  l2_ether = 1;
  l3_ipv4 = 144;
  l3_ipv6 = 224;
  l4_tcp = 256;
  l4_udp = 512;
  l4_sctp = 1024;
  grenat = 28672;
  inner_l2_ether = 65536;
  inner_l3_ipv4 = 3145728;
  inner_l3_ipv6 = 5242880;
  inner_l4_tcp = 16777216;
  inner_l4_udp = 33554432;
  inner_l4_sctp = 67108864;
}

parse_hdrs_list_lem_example :
    (2 ≤ 8
      → (out : List ℕ) × (parse_hdrs_list ptypes (codes "eth,,ipv4") (replicate 8 0)
          ≡ some (2, out))
        × (length out ≡ 8)
        × ((j : ℕ)
            → j < 2
            → get_elem? out j
              ≡ Option.map (get_ptype ptypes) (get_elem? (codes "eth" ∷ codes "ipv4" ∷ []) j))
        × ((j : ℕ) → 2 ≤ j → get_elem? out j ≡ get_elem? (replicate 8 0) j))
    × (8 < 2 → parse_hdrs_list ptypes (codes "eth,,ipv4") (replicate 8 0) ≡ none)
    × ((h : Header) → get_ptype ptypes (header_name h) ≡ or_all (layers ptypes h))
    × ((value : List ℕ) → ((h : Header) → value ≢ header_name h) → get_ptype ptypes value ≡ 0)
unfolding strtok pieces nonempty
parse_hdrs_list_lem_example = parse_hdrs_list_lem ptypes (codes "eth,,ipv4") (replicate 8 0)

abbrev pub number : Event → ℕ
number unknown = 0
number intr_lsc = 1
number queue_state = 2
number intr_reset = 3
number vf_mbox = 4
number macsec = 5
number intr_rmv = 6
number dev_probed = 7
number dev_released = 8
number ipsec = 9
number flow_aged = 10
number err_recovering = 12
number recovery_success = 13
number recovery_failed = 14
number all = 15

lsc_on : parse_event_printing_config number (codes "intr_lsc") true 5 ≡ some 7
unfolding parse_event_printing_config event_of with_event write_event event_mask
lsc_on = refl

lsc_off : parse_event_printing_config number (codes "intr_lsc") false 7 ≡ some 5
unfolding parse_event_printing_config event_of with_event write_event event_mask
lsc_off = refl

number_small : (e : Event) → number e < 32
number_small unknown = omega arith
number_small intr_lsc = omega arith
number_small queue_state = omega arith
number_small intr_reset = omega arith
number_small vf_mbox = omega arith
number_small ipsec = omega arith
number_small macsec = omega arith
number_small intr_rmv = omega arith
number_small dev_probed = omega arith
number_small dev_released = omega arith
number_small flow_aged = omega arith
number_small err_recovering = omega arith
number_small recovery_success = omega arith
number_small recovery_failed = omega arith
number_small all = omega arith

parse_event_printing_config_lem_example :
    ((e : Event)
      → (out : ℕ) × (parse_event_printing_config number (name_of e) true 5 ≡ some out)
        × ((j : ℕ)
            → j < 32
            → test_bit out j ≡ (if speaks_of number e j then true else test_bit 5 j)))
    × ((optarg : List ℕ)
        → ((e : Event) → optarg ≢ name_of e)
        → parse_event_printing_config number optarg true 5 ≡ none)
parse_event_printing_config_lem_example = parse_event_printing_config_lem number true 5 number_small

abbrev sockets : Numa
sockets = record {
  socket_ids = 0 ∷ [];
  port_numa = 255 ∷ 255 ∷ 255 ∷ [];
  rxring_numa = 255 ∷ 255 ∷ 255 ∷ [];
  txring_numa = 255 ∷ 255 ∷ 255 ∷ [];
}

sockets-IsNuma : IsNuma 3 sockets
unfolding contains
sockets-IsNuma = record {
  distinct = (refl, tt);
  room = omega arith;
  port_known = (refl, (refl, (refl, tt)));
  rx_known = (refl, (refl, (refl, tt)));
  tx_known = (refl, (refl, (refl, tt)));
  port_size = refl;
  rx_size = refl;
  tx_size = refl;
}

parse_portnuma_config-total_example :
    (r : Numa × Bool) × (parse_portnuma_config split three_ports (codes "(1,3)(2,x") sockets
      ≡ some r)
parse_portnuma_config-total_example =
    parse_portnuma_config-total split three_ports (codes "(1,3)(2,x") sockets

abbrev one_socket_more : Numa
one_socket_more = record sockets { socket_ids = 0 ∷ 3 ∷ []; port_numa = 255 ∷ 3 ∷ 255 ∷ [] }

numa_run :
    parse_portnuma_config split three_ports (codes "(1,3)") sockets ≡ some (one_socket_more, true)
unfolding parse_portnuma_config groups round at_paren with_group with_fields after_body fields
    int_fields strchr closing portnuma_group check_port record_socket new_socket_id with_port_numa
    port_id_is_invalid contains strtoul unsigned_signed unsigned_number based with_prefix hex_prefix
    read_base skip_space
numa_run = refl

parse_portnuma_config-IsNuma_example : IsNuma 3 one_socket_more
parse_portnuma_config-IsNuma_example =
    parse_portnuma_config-IsNuma split three_ports 3 (codes "(1,3)") sockets (one_socket_more, true)
      sockets-IsNuma numa_run

parse_fwd_coremask-chooses_example :
    (t : State) × (parse_fwd_coremask three_ports (codes "06") wide ≡ next t)
    × (t.nb_fwd_lcores ≡ t.nb_cfg_lcores)
    × ((c : ℕ) → contains (take t.nb_fwd_lcores t.fwd_lcores_cpuids) c ≡ (ltb c 64 && test_bit 6 c))
parse_fwd_coremask-chooses_example =
    parse_fwd_coremask-chooses three_ports b'0' (codes "6") wide (refl, (refl, tt)) (omega arith)
      (omega arith) (omega arith) cores_six

abbrev pub plain : Rings
plain = record {
  hairpin_mode = 0;
  nb_pkt_per_burst = 32;
  nb_pkt_flowgen_clones = 0;
  nb_flows_flowgen = 1024;
  mb_mempool_cache = 250;
  nb_rxd = 0;
  nb_txd = 0;
  tx_free_thresh = 65535;
  tx_rs_thresh = 65535;
  rx_free_thresh = 65535;
  tx_pthresh = 255;
  tx_hthresh = 255;
  tx_wthresh = 255;
  rx_pthresh = 255;
  rx_hthresh = 255;
  rx_wthresh = 255;
}

taken_64 : burst_option devices 64 plain ≡ next (record plain { nb_pkt_per_burst = 64 })
unfolding burst_option
taken_64 = refl

burst_option-range_example : (0 < 64) × (64 ≤ max_pkt_burst)
burst_option-range_example =
    burst_option-range devices 64 plain (record plain { nb_pkt_per_burst = 64 }) refl taken_64
