-- ===== src/Life/Detach.antt =====
-- dpdk.cpp, `detach_port_device`, `detach_devargs` and `update_queue_state`. `none` is an access past
-- the end of an array.
use udx_fastpath.Base.{
  ℕ, zero, suc, Bool, true, false, ◌||◌, Option, none, some, ◌>>=◌, List, if◌then◌else◌, get_elem?,
  set,
}
use udx_fastpath.Life.{Queue, LifePort, Globals, Driver, is_stopped, is_closed, invalid}
use udx_fastpath.Life.Stop.{Lists, Removal, detach_device, each_port}

-- `siblings` is `none` where the port does not answer, and else the ports of its device, if any.
unfoldable pub detach_port_device :
    Driver
    → (ℕ → Bool)
    → Bool
    → Option (Option (List ℕ))
    → ℕ
    → List LifePort
    → Lists
    → Option Removal
unfolding invalid
detach_port_device env valid remove siblings port_id ports s =
    let kept : Removal = record { ports = ports; lists = s; removed = false } in
    if invalid env port_id
    then some kept
    else (get_elem? ports port_id >>= λ port.
        if is_closed port.port_status || is_stopped port.port_status
        then elim siblings [ none ↦ some kept | some dev ↦ detach_device valid remove dev ports s ]
        else some kept)

-- `matching` has the ports that match the text, and is `none` where it cannot be parsed. The rest is
-- that of `detach_device`.
unfoldable pub detach_devargs :
    (ℕ → Bool) → Bool → Option (List ℕ) → List LifePort → Lists → Option Removal
detach_devargs valid remove none ports s =
    some (record { ports = ports; lists = s; removed = false })
detach_devargs valid remove (some list) ports s = detach_device valid remove (some list) ports s

-- The answer of `rte_eth_rx_queue_info_get` and `rte_eth_tx_queue_info_get`: whether the state is
-- RTE_ETH_QUEUE_STATE_STARTED, -ENOTSUP, or another error.
pub data Info : Type 0 where
  answered : Bool → Info
  not_supported info_error : Info

-- Only a secondary process takes a queue to be started whose driver cannot tell.
pub updated : Bool → Info → Queue → Queue
updated primary (answered started) q = record q { running = started }
updated primary not_supported q = if primary then q else record q { running = true }
updated primary info_error q = q

abbrev pub update_at : Bool → Info → Option Queue → ℕ → List Queue → List Queue
update_at primary info none qi qs = qs
update_at primary info (some q) qi qs = set qs qi (updated primary info q)

-- The loop over `n` queues from `qi` on.
pub update_queues : Bool → (ℕ → Info) → ℕ → ℕ → List Queue → List Queue
unfolding updated
update_queues primary info zero qi qs = qs
update_queues primary info (suc n) qi qs =
    update_queues primary info n (suc qi) (update_at primary (info qi) (get_elem? qs qi) qi qs)

unfoldable pub update_port : Globals → (ℕ → ℕ → Info) → (ℕ → ℕ → Info) → ℕ → LifePort → LifePort
unfolding update_queues
update_port g rx tx pi p = record p {
  rxq = update_queues g.primary (rx pi) g.nb_rxq 0 p.rxq;
  txq = update_queues g.primary (tx pi) g.nb_txq 0 p.txq;
}

unfoldable pub update_queue_state :
    Globals → Driver → (ℕ → ℕ → Info) → (ℕ → ℕ → Info) → ℕ → List LifePort → Option (List LifePort)
unfolding update_port each_port
update_queue_state g env rx tx pid ports = each_port (update_port g rx tx) pid env.devs ports
