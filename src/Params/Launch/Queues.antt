-- ===== src/Params/Launch/Queues.antt =====
-- What `launch_args_parse` of lib/core/dpdk/parameters.c makes of the numbers of queues.
use udx_fastpath.Base.{
  ℕ, ◌≡◌, refl, ap, ◌∙◌, Bool, true, Option, none, some, on_if, &&-left, &&-right, OnSome,
}
use udx_fastpath.Fwd.Types.{State, Topology}
use udx_fastpath.Select.Cores.Kept.{SameQueues, set_fwd_lcores_mask-SameQueues}
use udx_fastpath.Select.Ports.Kept.{set_fwd_ports_mask-SameQueues}
use udx_fastpath.Select.PortList.Kept.{parse_fwd_portlist-SameQueues}
use udx_fastpath.Limits.{Devices, check_nb_rxq, check_nb_txq, check_nb_hairpinq}
use udx_fastpath.Params.Text.{strtoul}
use udx_fastpath.Params.Numa.{Numa}
use udx_fastpath.Params.Outcome.{Outcome, OnNext, OnNext-map, OnNext-put, OnNext-accept}
use udx_fastpath.Params.Options.{
  ForwardOption, nb_ports, nb_cores, coremask, portmask, portlist, numa, no_numa, port_numa_config,
  ring_numa_config, socket_num, port_topology, forward_mode, QueueOption, rxq, txq, hairpinq,
}
use udx_fastpath.Params.Forwarding.{
  Forwarding, ForwardEnv, parse_fwd_coremask, after_coremask, parse_fwd_portmask, mask_ok,
  stored_or_fault, find_engine, set_pkt_forwarding_mode, with_engine, topology_of, with_topology,
  numa_of, with_numa, with_fwd, forward_option, queue_option,
}
use udx_fastpath.Params.Numa.{parse_portnuma_config, parse_ringnuma_config}
use udx_fastpath.Select.Cores.{set_fwd_lcores_mask}
use udx_fastpath.Select.Ports.{set_fwd_ports_mask}
use udx_fastpath.Select.PortList.{parse_fwd_portlist}

-- Nothing but the numbers of queues.
abbrev pub SameNumbers : Forwarding → Forwarding → Type 0
SameNumbers s t = SameQueues s.fwd t.fwd × (t.nb_hairpinq ≡ s.nb_hairpinq)

stored-SameQueues :
    (s : State) (o : Option State)
    → OnSome (SameQueues s) o
    → OnNext (SameQueues s) (stored_or_fault o)
unfolding stored_or_fault
stored-SameQueues s none h = tt
stored-SameQueues s (some t) h = h

after_coremask-SameQueues :
    (s : State) (o : Option (State × Bool))
    → OnSome (λ r. SameQueues s r.0) o
    → OnNext (SameQueues s) (after_coremask o)
unfolding after_coremask
after_coremask-SameQueues s none h = tt
after_coremask-SameQueues s (some (t, ok)) h = on_if (OnNext (SameQueues s)) ok h tt

with_topology-SameQueues :
    (s : State) (o : Option Topology) → OnNext (SameQueues s) (with_topology o s)
unfolding with_topology
with_topology-SameQueues s none = tt
with_topology-SameQueues s (some t) = (refl, refl)

with_engine-SameQueues : (s : State) (o : Option ℕ) → SameQueues s (with_engine o s)
unfolding with_engine
with_engine-SameQueues s none = (refl, refl)
with_engine-SameQueues s (some i) = (refl, refl)

with_numa-SameNumbers :
    (s : Forwarding) (o : Option (Numa × Bool)) → OnNext (SameNumbers s) (with_numa o s)
unfolding with_numa
with_numa-SameNumbers s none = tt
with_numa-SameNumbers s (some (n, ok)) = on_if (OnNext (SameNumbers s)) ok ((refl, refl), refl) tt

with_fwd-SameNumbers :
    (s : Forwarding) (o : Outcome State)
    → OnNext (SameQueues s.fwd) o
    → OnNext (SameNumbers s) (with_fwd o s)
unfolding with_fwd
with_fwd-SameNumbers s o h =
    OnNext-put (SameNumbers s) _ o (OnNext-map (SameQueues s.fwd) _ o (λ t k. (k, refl)) h)

pub forward_option-SameNumbers :
    (env : ForwardEnv) (o : ForwardOption) (s : Forwarding)
    → OnNext (SameNumbers s) (forward_option env o s)
unfolding forward_option parse_fwd_coremask parse_fwd_portmask set_pkt_forwarding_mode
forward_option-SameNumbers env (nb_ports a) s =
    OnNext-accept (SameNumbers s) _ _ (λ e. ((refl, refl), refl))
forward_option-SameNumbers env (nb_cores a) s =
    OnNext-accept (SameNumbers s) _ _ (λ e. ((refl, refl), refl))
forward_option-SameNumbers env (coremask a) s =
    let w = strtoul 16 a in
    let set = set_fwd_lcores_mask env.platform w.value s.fwd in
    with_fwd-SameNumbers s (parse_fwd_coremask env.platform a s.fwd) (
      on_if (OnNext (SameQueues s.fwd)) (mask_ok a w)
        (after_coremask-SameQueues s.fwd set
          (set_fwd_lcores_mask-SameQueues env.platform w.value s.fwd))
        tt)
forward_option-SameNumbers env (portmask a) s =
    let w = strtoul 16 a in
    let set = set_fwd_ports_mask env.platform w.value s.fwd in
    with_fwd-SameNumbers s (parse_fwd_portmask env.platform a s.fwd) (
      on_if (OnNext (SameQueues s.fwd)) (mask_ok a w)
        (stored-SameQueues s.fwd set (set_fwd_ports_mask-SameQueues env.platform w.value s.fwd)) tt)
forward_option-SameNumbers env (portlist a) s =
    let set = parse_fwd_portlist env.platform env.max_ethports a s.fwd in
    with_fwd-SameNumbers s (stored_or_fault set) (
      stored-SameQueues s.fwd set
        (parse_fwd_portlist-SameQueues env.platform env.max_ethports a s.fwd))
forward_option-SameNumbers env numa s = ((refl, refl), refl)
forward_option-SameNumbers env no_numa s = ((refl, refl), refl)
forward_option-SameNumbers env (port_numa_config a) s =
    with_numa-SameNumbers s (parse_portnuma_config env.strsplit env.platform a (numa_of s))
forward_option-SameNumbers env (ring_numa_config a) s =
    with_numa-SameNumbers s (parse_ringnuma_config env.strsplit env.platform a (numa_of s))
forward_option-SameNumbers env (socket_num a) s =
    OnNext-accept (SameNumbers s) _ _ (λ e. ((refl, refl), refl))
forward_option-SameNumbers env (port_topology a) s =
    with_fwd-SameNumbers s (with_topology (topology_of a) s.fwd)
      (with_topology-SameQueues s.fwd (topology_of a))
forward_option-SameNumbers env (forward_mode a) s =
    (with_engine-SameQueues s.fwd (find_engine env.engines 0 a), refl)

-- The device limits allow the numbers of queues.
pub record IsLimited (env : Devices) (s : Forwarding) : Type 0 where
  pub rxq_ok : check_nb_rxq env s.fwd.nb_rxq ≡ true
  pub txq_ok : check_nb_txq env s.fwd.nb_txq ≡ true
  pub hairpinq_ok : check_nb_hairpinq env s.nb_hairpinq ≡ true

pub Same-IsLimited :
    (env : Devices) (s t : Forwarding) → SameNumbers s t → IsLimited env s → IsLimited env t
Same-IsLimited env s t same h = record {
  rxq_ok = ap (check_nb_rxq env) same.0.0 ∙ h.rxq_ok;
  txq_ok = ap (check_nb_txq env) same.0.1 ∙ h.txq_ok;
  hairpinq_ok = ap (check_nb_hairpinq env) same.1 ∙ h.hairpinq_ok;
}

pub queue_option-IsLimited :
    (env : Devices) (o : QueueOption) (s : Forwarding)
    → IsLimited env s
    → OnNext (IsLimited env) (queue_option env o s)
unfolding queue_option
queue_option-IsLimited env (rxq a) s h =
    OnNext-accept (IsLimited env) _ _
      (λ e. record { rxq_ok = &&-right _ _ e; txq_ok = h.txq_ok; hairpinq_ok = h.hairpinq_ok })
queue_option-IsLimited env (txq a) s h =
    OnNext-accept (IsLimited env) _ _
      (λ e. record { rxq_ok = h.rxq_ok; txq_ok = &&-right _ _ e; hairpinq_ok = h.hairpinq_ok })
queue_option-IsLimited env (hairpinq a) s h = OnNext-accept (IsLimited env) _ _ (λ e. record {
  rxq_ok = h.rxq_ok;
  txq_ok = h.txq_ok;
  hairpinq_ok = &&-right _ _ (&&-left _ _ e);
})
