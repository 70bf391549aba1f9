-- ===== src/Select/PortList/Kept.antt =====
-- `parse_fwd_portlist` of config.c leaves the numbers of queues alone.
use udx_fastpath.Base.{ℕ, List, length, ◌==◌, OnSome, OnSome-bind, on_if}
use udx_fastpath.Fwd.Types.{State}
use udx_fastpath.Select.Platform.{Platform}
use udx_fastpath.Select.Cores.Kept.{SameQueues}
use udx_fastpath.Select.Ports.Kept.{set_fwd_ports_list-SameQueues}
use udx_fastpath.Select.PortList.{parse_port_list, parse_fwd_portlist, valid_ports}

pub parse_fwd_portlist-SameQueues :
    (p : Platform) (n : ℕ) (cs : List ℕ) (s : State)
    → OnSome (SameQueues s) (parse_fwd_portlist p n cs s)
unfolding parse_fwd_portlist
parse_fwd_portlist-SameQueues p n cs s =
    OnSome-bind (SameQueues s) (parse_port_list n cs) _ (λ ports.
      on_if (OnSome (SameQueues s)) (length ports == 0) tt
        (set_fwd_ports_list-SameQueues p (valid_ports p ports) s))
