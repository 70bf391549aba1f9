-- ===== src/Fwd/Setup/Rss/Polling.antt =====
-- Which streams of `rss_fwd_config_setup` poll the same queue.
use udx_fastpath.Base.{
  ℕ, suc, ◌+◌, ◌*◌, ◌/◌, ◌%◌, ◌≤◌, ◌<◌, ◌≡◌, ◌∙◌, sym, ap, some, some_inj, arith, get_elem?, get_or,
}
use native.Mathlib.Nat.{div-add-mod', mod-eq_of_lt, add-mul-div_right, div-one}
use native.Mathlib.Nat.{
  add-mul-mod_self_right, mod-lt, div-lt_iff_lt-mul, div-lt_self, add-mod_right,
}
use udx_fastpath.Fwd.Types.{Stream, State, Env}
use udx_fastpath.Fwd.Setup.{rss_fwd_config_setup}
use udx_fastpath.Fwd.Setup.Ready.{IsReady}
use udx_fastpath.Fwd.Setup.Rss.{
  rxp_at, rss_at, rss_queues, rss_width, rss_start, IsShared, mul_mono,
}
use udx_fastpath.Fwd.Setup.Rss.Result.{rss_fwd_config_setup-IsRss}

-- The forwarding ports are listed once each.
abbrev pub DistinctPorts : State → Type 0
DistinctPorts s =
    (i j : ℕ)
    → i < s.nb_fwd_ports
    → j < s.nb_fwd_ports
    → get_or s.fwd_ports_ids i 0 ≡ get_or s.fwd_ports_ids j 0
    → i ≡ j

digits_eq : (j k n : ℕ) → j % n ≡ k % n → j / n ≡ k / n → j ≡ k
digits_eq j k n r q = omega (arith, div-add-mod' j n, div-add-mod' k n, ap (λ (t : ℕ). t * n) q)

at_injective :
    (s : State) (start width j k : ℕ)
    → 0 < s.nb_fwd_ports
    → j < width * s.nb_fwd_ports
    → k < width * s.nb_fwd_ports
    → DistinctPorts s
    → (rss_at s start width j).rx_port ≡ (rss_at s start width k).rx_port
    → (rss_at s start width j).rx_queue ≡ (rss_at s start width k).rx_queue
    → j ≡ k
at_injective s start width j k pos hj hk distinct p q =
    let jq : j / s.nb_fwd_ports < width = (div-lt_iff_lt-mul pos).1 hj in
    let kq : k / s.nb_fwd_ports < width = (div-lt_iff_lt-mul pos).1 hk in
    digits_eq j k s.nb_fwd_ports
      (distinct (rxp_at s j) (rxp_at s k) (mod-lt j pos) (mod-lt k pos) p)
      (omega (arith, mod-eq_of_lt jq, mod-eq_of_lt kq))

at_periodic :
    (s : State) (start width k : ℕ)
    → 0 < s.nb_fwd_ports
    → rss_at s start width (k + width * s.nb_fwd_ports) ≡ rss_at s start width k
at_periodic s start width k pos = rw (
  add-mul-mod_self_right k width s.nb_fwd_ports,
  add-mul-div_right k width pos,
  add-mod_right (k / s.nb_fwd_ports) width,
)

-- On a ready state with one process, which has fewer than 65536 queues, and forwarding ports that
-- are listed once each, the set-up succeeds and no two streams poll the same queue of the same
-- port.
pub rss_fwd_config_setup-distinct :
    (env : Env) (s : State)
    → IsReady env s
    → IsShared s
    → rss_queues s < 65536
    → s.num_procs ≡ 1
    → DistinctPorts s
    → (t : State) × (rss_fwd_config_setup env s ≡ some t)
      × ((j k : ℕ) (a b : Stream)
          → j < t.cfg.nb_fwd_streams
          → k < t.cfg.nb_fwd_streams
          → get_elem? t.streams j ≡ some a
          → get_elem? t.streams k ≡ some b
          → a.rx_port ≡ b.rx_port
          → a.rx_queue ≡ b.rx_queue
          → j ≡ k)
rss_fwd_config_setup-distinct env s ready share qs one distinct =
    let (t, done, result) = rss_fwd_config_setup-IsRss env s ready share qs in
    (
      t,
      done,
      λ j k a b hj hk ga gb p q.
          let width : rss_width s ≡ rss_queues s = rw one (div-one (rss_queues s)) in
          let jw : j < rss_width s * s.nb_fwd_ports = rw width (omega (arith, result.streams)) in
          let kw : k < rss_width s * s.nb_fwd_ports = rw width (omega (arith, result.streams)) in
          let at_j = result.wired j (omega (arith, result.streams)) in
          let at_k = result.wired k (omega (arith, result.streams)) in
          let ea : a ≡ rss_at s (rss_start s) (rss_width s) j = some_inj (sym ga ∙ at_j) in
          let eb : b ≡ rss_at s (rss_start s) (rss_width s) k = some_inj (sym gb ∙ at_k) in
          at_injective s (rss_start s) (rss_width s) j k ready.some_port jw kw distinct
            (sym (ap (λ (x : Stream). x.rx_port) ea) ∙ p ∙ ap (λ (x : Stream). x.rx_port) eb)
            (sym (ap (λ (x : Stream). x.rx_queue) ea) ∙ q ∙ ap (λ (x : Stream). x.rx_queue) eb),
    )

-- On a ready state with several processes, each with at least one of fewer than 65536 queues, the
-- set-up succeeds, and the streams from the share of one process on repeat the earlier ones: two
-- streams of the same process poll the same queue of the same port.
pub rss_fwd_config_setup-repeats :
    (env : Env) (s : State)
    → IsReady env s
    → IsShared s
    → rss_queues s < 65536
    → 2 ≤ s.num_procs
    → (t : State) × (rss_fwd_config_setup env s ≡ some t)
      × (rss_width s * s.nb_fwd_ports < t.cfg.nb_fwd_streams)
      × ((k : ℕ)
          → k + rss_width s * s.nb_fwd_ports < t.cfg.nb_fwd_streams
          → get_elem? t.streams (k + rss_width s * s.nb_fwd_ports) ≡ get_elem? t.streams k)
rss_fwd_config_setup-repeats env s ready share qs two =
    let (t, done, result) = rss_fwd_config_setup-IsRss env s ready share qs in
    let queues : 0 < rss_queues s = omega (arith, ready.queues) in
    let fewer : rss_width s < rss_queues s = div-lt_self queues two in
    let few = mul_mono (suc (rss_width s)) (rss_queues s) s.nb_fwd_ports fewer in
    let late = rss_width s * s.nb_fwd_ports in
    (
      t,
      done,
      omega (arith, result.streams, ready.some_port, few),
      λ k h.
          result.wired (k + late) (omega (arith, result.streams))
          ∙ ap some (at_periodic s (rss_start s) (rss_width s) k ready.some_port)
          ∙ sym (result.wired k (omega (arith, result.streams))),
    )
