-- ===== src/Conf/Ports.antt =====
-- dpdk.cpp, `rxtx_port_config`, `init_port_config`, `reconfig` and `update_mtu_from_frame_size`.
use udx_fastpath.Base.{
  ℕ, zero, suc, ◌+◌, ◌-◌, ◌^◌, Bool, true, false, ◌&&◌, ◌||◌, not, Option, none, some, ◌>>=◌, List,
  [], ◌∷◌, ltb, ◌==◌, if◌then◌else◌, get_elem?, set, store, u16, u32,
}
use Prim.Native.Nat.{bit_and}
use udx_fastpath.Conf.{
  ConfInfo, ConfPort, ConfGlobals, ConfEnv, get_eth_overhead, rx_offloads_at, rx_conf, tx_conf,
  init_config_port_offloads,
}

-- The loops over `n` queues from `qid` on.
pub config_rxq : ConfGlobals → ConfInfo → ℕ → ℕ → ℕ → ConfPort → Option ConfPort
unfolding rx_conf
config_rxq g i pid zero qid p = some p
config_rxq g i pid (suc n) qid p = get_elem? p.rxq qid >>= λ q.
    store p.nb_rx_desc qid g.rings.nb_rxd >>= λ desc.
    config_rxq g i pid n (suc qid)
      (record p { rxq = set p.rxq qid (rx_conf g i pid qid q); nb_rx_desc = desc })

pub config_txq : ConfGlobals → ConfInfo → ℕ → ℕ → ConfPort → Option ConfPort
unfolding tx_conf
config_txq g i zero qid p = some p
config_txq g i (suc n) qid p = get_elem? p.txq qid >>= λ q.
    store p.nb_tx_desc qid g.rings.nb_txd >>= λ desc.
    config_txq g i n (suc qid) (record p { txq = set p.txq qid (tx_conf g i q); nb_tx_desc = desc })

-- The transmit buffers that the function allocates are left out.
pub rxtx_port_config : ConfGlobals → ConfInfo → ℕ → ConfPort → Option ConfPort
unfolding config_rxq config_txq
rxtx_port_config g i pid p = config_rxq g i pid g.nb_rxq 0 p >>= λ q. config_txq g i g.nb_txq 0 q

-- `rss_hf`, and `mq_mode` with the offload that goes with it.
pub with_rss : ConfGlobals → ConfInfo → ConfPort → ConfPort
with_rss g i p = record p {
  rss_hf = if ltb 1 g.nb_rxq then bit_and g.rss_hf i.flow_type_rss_offloads else 0;
}

-- RTE_ETH_MQ_RX_NONE is 0 and RTE_ETH_MQ_RX_RSS is 1.
pub with_mq_mode : ConfGlobals → ConfEnv → ConfInfo → ConfPort → ConfPort
with_mq_mode g env i p =
    let clear = λ (o : ℕ). bit_and o env.not_rss_hash in
    if p.dcb_flag
    then p
    else (if p.rss_hf == 0
        then record p {
          rxmode = record (p.rxmode) { mq_mode = 0; offloads = clear p.rxmode.offloads };
          rxq = rx_offloads_at clear i.nb_rx_queues p.rxq;
        }
        else record p { rxmode = record (p.rxmode) { mq_mode = bit_and g.rx_mq_mode 1 } })

pub with_interrupts : ConfGlobals → ConfInfo → ConfPort → ConfPort
with_interrupts g i p = record p {
  lsc = (g.lsc_interrupt && i.intr_lsc) || p.lsc;
  rmv = (g.rmv_interrupt && i.intr_rmv) || p.rmv;
}

-- The loop: a port that does not answer ends it, and so does one whose address is not told, which is
-- configured but for its interrupts.
pub init_ports_config : ConfGlobals → ConfEnv → List ℕ → List ConfPort → Option (List ConfPort)
unfolding with_rss with_mq_mode with_interrupts rxtx_port_config
init_ports_config g env [] ports = some ports
init_ports_config g env (pid ∷ pids) ports = elim (env.info pid) [
  | none ↦ some ports
  | some i ↦ get_elem? ports pid >>= λ port.
      rxtx_port_config g i pid (with_mq_mode g env i (with_rss g i port)) >>= λ p.
      if env.macaddr pid
      then init_ports_config g env pids (set ports pid (with_interrupts g i p))
      else some (set ports pid p)
]

pub init_port_config : ConfGlobals → ConfEnv → List ConfPort → Option (List ConfPort)
unfolding init_ports_config
init_port_config g env ports = init_ports_config g env env.devs ports

-- The ports, and the size of the first buffer.
unfoldable pub reconfig :
    ConfGlobals → ConfEnv → ℕ → ℕ → List ConfPort → ℕ → Option (List ConfPort × ℕ)
unfolding init_config_port_offloads init_port_config
reconfig g env new_port_id socket_id ports size = get_elem? ports new_port_id >>= λ port.
    init_config_port_offloads g env new_port_id socket_id (port, size) >>= λ r.
    init_port_config g env (set ports new_port_id r.0) >>= λ next. some (next, r.1)

-- `port->dev_info` is an argument; a result of -1 is `false`.
unfoldable pub update_mtu_from_frame_size :
    ConfGlobals → ConfEnv → ConfInfo → ℕ → ℕ → ConfPort → ConfPort × Bool
unfolding get_eth_overhead
update_mtu_from_frame_size g env i portid max_rx_pktlen p = elim (env.get_mtu portid) [
  | none ↦ (p, false)
  | some mtu ↦
      let new_mtu = u16 (u32 (max_rx_pktlen + 2 ^ 32 - get_eth_overhead i)) in
      if mtu == new_mtu
      then (p, true)
      else (if not g.primary || env.set_mtu portid new_mtu
          then (record p { rxmode = record (p.rxmode) { mtu = new_mtu } }, true)
          else (p, false))
]
