-- ===== src/Tests/Ports.antt =====
-- Device limits as of a common card, and a port with three queues: config.c, the MTU, the callbacks
-- that dump packets and the VLAN settings.
use udx_fastpath.Base.{
  ℕ, ◌≢◌, not, replicate, true, false, refl, ◌==◌, inl, ◌+◌, ◌≡◌, none, some, List, [], ◌∷◌,
  get_elem?, arith,
}
use udx_fastpath.Select.Platform.{Platform, contains, port_id_is_invalid}
use udx_fastpath.Mtu.{Limits, Env, Port, port_mtu_set, IsAllowed, port_mtu_set_lem}
use udx_fastpath.Vlan
use udx_fastpath.Vlan.{Flag, rx_offload_set, filter_each}
use udx_fastpath.Vlan.Flags.{Agrees, rx_offload_set_lem}
use Prim.{tt}
use udx_fastpath.Dump
use udx_fastpath.Dump.{Queues, set_verbose_level}
use udx_fastpath.Dump.Level.{Ready, IsConfigured, AllReady, set_verbose_level_lem}

abbrev card : Limits
card = record { min_mtu = 68; max_mtu = 9710; max_rx_pktlen = 9728 }

-- Port 0 takes every MTU of its limits.
abbrev one_port : Platform
one_port = record {
  lcore_is_enabled = λ c. true;
  main_lcore = 0;
  devs = 0 ∷ [];
  is_valid_port = λ p. p == 0;
}

abbrev one_card : Env
one_card = record { info = λ p. inl card; set_mtu = λ p mtu. 0 }

abbrev started : Port
started = record { need_reconfig = false; mtu = 1500 }

port_zero : port_id_is_invalid one_port 0 ≡ false
unfolding port_id_is_invalid contains
port_zero = refl

port_mtu_set_lem_example :
    (IsAllowed card 9000
      → true ≡ true
      → port_mtu_set one_port one_card (started ∷ []) 0 9000
        ≡ some (record started { mtu = 9000 } ∷ []))
    × (¬ IsAllowed card 9000
        → port_mtu_set one_port one_card (started ∷ []) 0 9000 ≡ some (started ∷ []))
port_mtu_set_lem_example =
    port_mtu_set_lem one_port one_card (started ∷ []) 0 9000 started card refl port_zero refl
      (omega arith) (omega arith)

-- Queue 1 of the port has a receive callback, and DPDK tells two queues each way.
abbrev two_queues : Queues
two_queues = record { nb_rx_queues = 2; nb_tx_queues = 2 }

abbrev adding : Dump.Env
adding = record {
  info = λ p. some two_queues;
  add_rx = λ p q. some (q + 20);
  add_tx = λ p q. some (q + 40);
}

abbrev one_callback : Dump.Port
one_callback = record {
  rx_dump_cb = none ∷ some 7 ∷ none ∷ [];
  tx_dump_cb = none ∷ none ∷ none ∷ [];
}

one_callback-AllReady : AllReady one_port adding (0 ∷ []) (one_callback ∷ [])
unfolding contains
one_callback-AllReady = (
  refl,
  (
    two_queues,
    one_callback,
    refl,
    record { valid = port_zero; known = refl; rx_room = omega arith; tx_room = omega arith },
  ),
  tt,
)

set_verbose_level_lem_example :
    (ports' : List Dump.Port) × (set_verbose_level one_port adding 1 (one_callback ∷ [])
      ≡ some (1, ports'))
    × ((portid : ℕ) (queues : Queues) (port : Dump.Port)
        → contains (0 ∷ []) portid ≡ true
        → get_elem? (one_callback ∷ []) portid ≡ some port
        → Ready one_port adding portid queues port
        → (port' : Dump.Port) × (get_elem? ports' portid ≡ some port')
          × IsConfigured adding 1 portid queues port port')
set_verbose_level_lem_example =
    set_verbose_level_lem one_port adding 1 (one_callback ∷ []) one_callback-AllReady

-- A driver that refuses VLAN 3, and takes all offloads.
abbrev refuses_three : Vlan.Env
refuses_three = record {
  extend = record { vlan_bit = 2; rx_bit = 10 };
  strip = record { vlan_bit = 0; rx_bit = 0 };
  filter = record { vlan_bit = 1; rx_bit = 9 };
  qinq_strip = record { vlan_bit = 3; rx_bit = 5 };
  vlan_insert = 0;
  qinq_insert = 6;
  takes_offload = λ p offload. true;
  takes_filter = λ p vlan_id on. not (vlan_id == 3);
  tx_offload_capa = λ p. none;
}

abbrev untagged : Vlan.Port
untagged = record {
  rx_offloads = replicate 64 false;
  tx_offloads = replicate 64 false;
  tx_vlan_id = 0;
  tx_vlan_id_outer = 0;
  vlan_offload = replicate 32 false;
  vlan_filter = replicate 4096 false;
}

rx_offload_set_lem_example :
    (true ≡ true
      → (port' : Vlan.Port) × (rx_offload_set refuses_three.strip one_port refuses_three
            (untagged ∷ [])
            0
            true
          ≡ some (port' ∷ []))
        × (get_elem? port'.rx_offloads 0 ≡ some true)
        × Agrees refuses_three.strip port'
        × ((other : Flag)
            → other.rx_bit ≢ 0
            → other.vlan_bit ≢ 0
            → Agrees other untagged
            → Agrees other port'))
    × (true ≡ false
        → rx_offload_set refuses_three.strip one_port refuses_three (untagged ∷ []) 0 true
          ≡ some (untagged ∷ []))
rx_offload_set_lem_example =
    rx_offload_set_lem refuses_three.strip one_port refuses_three (untagged ∷ []) 0 true untagged
      refl port_zero (omega arith) (omega arith)
