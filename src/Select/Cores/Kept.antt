-- ===== src/Select/Cores/Kept.antt =====
-- The setters of the forwarding cores of config.c leave the numbers of queues alone.
use udx_fastpath.Base.{
  ℕ, ◌≡◌, refl, Bool, true, false, not, length, u8, List, ◌==◌, OnSome, OnSome-bind, on_if,
}
use udx_fastpath.Fwd.Types.{State}
use udx_fastpath.Select.Platform.{Platform}
use udx_fastpath.Select.Cores.{lcores_pass, set_fwd_lcores_list, set_fwd_lcores_mask, mask_lcores}

-- The numbers of queues, which the selection of cores and ports does not touch.
abbrev pub SameQueues : State → State → Type 0
SameQueues s t = (t.nb_rxq ≡ s.nb_rxq) × (t.nb_txq ≡ s.nb_txq)

pub set_fwd_lcores_list-SameQueues :
    (p : Platform) (lcores : List ℕ) (s : State)
    → OnSome (λ r. SameQueues s r.0) (set_fwd_lcores_list p lcores s)
unfolding set_fwd_lcores_list
set_fwd_lcores_list-SameQueues p lcores s =
    let P : State × Bool → Type 0 = λ r. SameQueues s r.0 in
    OnSome-bind P (lcores_pass p false 0 lcores s.fwd_lcores_cpuids) _ (λ checked.
      on_if (OnSome P) (not checked.1) (refl, refl)
        (OnSome-bind P (lcores_pass p true 0 lcores checked.0) _ (λ written.
          on_if (OnSome P) (not written.1) (refl, refl)
            (on_if (SameQueues s) (s.nb_fwd_lcores == u8 (length lcores)) (refl, refl)
              (refl, refl)))))

pub set_fwd_lcores_mask-SameQueues :
    (p : Platform) (lcoremask : ℕ) (s : State)
    → OnSome (λ r. SameQueues s r.0) (set_fwd_lcores_mask p lcoremask s)
unfolding set_fwd_lcores_mask
set_fwd_lcores_mask-SameQueues p lcoremask s =
    on_if (OnSome (λ r. SameQueues s r.0)) (lcoremask == 0) (refl, refl)
      (set_fwd_lcores_list-SameQueues p (mask_lcores lcoremask 64 0) s)
