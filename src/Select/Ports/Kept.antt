-- ===== src/Select/Ports/Kept.antt =====
-- The setters of the forwarding ports of config.c leave the numbers of queues alone.
use udx_fastpath.Base.{
  ℕ, refl, true, false, not, u16, List, length, ◌==◌, OnSome, OnSome-bind, on_if,
}
use udx_fastpath.Fwd.Types.{State}
use udx_fastpath.Select.Platform.{Platform}
use udx_fastpath.Select.Cores.Kept.{SameQueues}
use udx_fastpath.Select.Ports.{ports_pass, mask_ports, set_fwd_ports_list, set_fwd_ports_mask}

pub set_fwd_ports_list-SameQueues :
    (p : Platform) (ports : List ℕ) (s : State)
    → OnSome (SameQueues s) (set_fwd_ports_list p ports s)
unfolding set_fwd_ports_list
set_fwd_ports_list-SameQueues p ports s =
    let P = SameQueues s in
    OnSome-bind P (ports_pass p false 0 ports s.fwd_ports_ids) _ (λ checked.
      on_if (OnSome P) (not checked.1) (refl, refl)
        (OnSome-bind P (ports_pass p true 0 ports checked.0) _ (λ written.
          on_if (OnSome P) (not written.1) (refl, refl)
            (on_if P (s.nb_fwd_ports == u16 (length ports)) (refl, refl) (refl, refl)))))

pub set_fwd_ports_mask-SameQueues :
    (p : Platform) (portmask : ℕ) (s : State)
    → OnSome (SameQueues s) (set_fwd_ports_mask p portmask s)
unfolding set_fwd_ports_mask
set_fwd_ports_mask-SameQueues p portmask s =
    on_if (OnSome (SameQueues s)) (portmask == 0) (refl, refl)
      (OnSome-bind (SameQueues s) (mask_ports portmask p.devs) _
        (λ ports. set_fwd_ports_list-SameQueues p ports s))
