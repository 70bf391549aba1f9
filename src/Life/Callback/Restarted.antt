-- ===== src/Life/Callback/Restarted.antt =====
-- dpdk.cpp, `start_packet_forwarding`: what it leaves of a port.
use udx_fastpath.Base.{
  ℕ, zero, suc, ◌==◌, ◌≡◌, refl, ap, sym, ◌∙◌, ◌&&◌, ◌||◌, not, some, some_inj, List, [], ◌∷◌,
  on_if, get_elem?, get_elem?-some-lt, get_elem?-set_self, get_elem?-set_ne, set, OnSome,
  OnSome-bind, OnSome-bind_eq,
}
use mathlib.Core.Path.{subst}
use native.Mathlib.Decide.{ℕ_discrete}
use udx_fastpath.Select.Platform.{port_all}
use udx_fastpath.Life.{LifePort, Globals, Driver, selects, all_ports_started}
use udx_fastpath.Life.Stop.{each_port, Lists}
use udx_fastpath.Fwd.Types.{Port}
use udx_fastpath.Fwd.Setup.{fwd_config_setup}
use udx_fastpath.Fwd.Shared.{pkt_fwd_shared_rxq_check}
use udx_fastpath.Life.Detach.{Info, update_queues, update_port, update_queue_state}
use udx_fastpath.Life.Callback.{Restart, sockets_out, state_of, start_packet_forwarding}

-- A port as it was, but for its socket and the states of its queues.
abbrev pub SamePort : LifePort → LifePort → Type 0
SamePort p q = q ≡ record p { socket_id = q.socket_id; rxq = q.rxq; txq = q.txq }

-- The port `i` of the ports is `p` but for that.
abbrev pub Keeps : ℕ → LifePort → List LifePort → Type 0
Keeps i p ports = (q : LifePort) × (get_elem? ports i ≡ some q) × SamePort p q

sockets_out-Keeps :
    (qs : List Port) (ports : List LifePort) (i : ℕ) (p : LifePort)
    → Keeps i p ports
    → Keeps i p (sockets_out qs ports)
sockets_out-Keeps [] ports i p h = h
sockets_out-Keeps (x ∷ qs) [] i p h = h
sockets_out-Keeps (x ∷ qs) (r ∷ ports) zero p (q, at, same) =
    let here : r ≡ q = some_inj at in
    (
      record r { socket_id = x.socket_id },
      refl,
      ap (λ (y : LifePort). record y { socket_id = x.socket_id }) (here ∙ same)
          ∙ ap (λ (y : LifePort). record p { socket_id = x.socket_id; rxq = y.rxq; txq = y.txq })
              (sym here),
    )
sockets_out-Keeps (x ∷ qs) (r ∷ ports) (suc i) p h = sockets_out-Keeps qs ports i p h

each_port-Keeps :
    (body : ℕ → LifePort → LifePort) (i : ℕ) (p : LifePort)
    → ((pi : ℕ) (q : LifePort) → SamePort p q → SamePort p (body pi q))
    → (pid : ℕ) (pis : List ℕ) (ports : List LifePort) → Keeps i p ports
    → OnSome (Keeps i p) (each_port body pid pis ports)
unfolding each_port
each_port-Keeps body i p keeps pid [] ports h = h
each_port-Keeps body i p keeps pid (pi ∷ pis) ports (q, at, same) =
    on_if (OnSome (Keeps i p)) (selects pid pi)
      (OnSome-bind_eq (Keeps i p) (get_elem? ports pi) _ (λ port e.
        each_port-Keeps body i p keeps pid pis (set ports pi (body pi port))
          (elim (ℕ_discrete pi i) [
            | yes here ↦
                let this : q ≡ port = some_inj (sym at ∙ ap (get_elem? ports) (sym here) ∙ e) in
                (
                  body pi port,
                  ap (get_elem? (set ports pi (body pi port))) (sym here)
                      ∙ get_elem?-set_self ports pi (body pi port) (get_elem?-some-lt ports pi e),
                  keeps pi port (subst (SamePort p) this same),
                )
            | no other ↦ (q, get_elem?-set_ne ports pi i (body pi port) other ∙ at, same)
          ])))
      (each_port-Keeps body i p keeps pid pis ports (q, at, same))

update_port-SamePort :
    (g : Globals) (rx tx : ℕ → ℕ → Info) (pi : ℕ) (p q : LifePort)
    → SamePort p q
    → SamePort p (update_port g rx tx pi q)
unfolding update_port
update_port-SamePort g rx tx pi p q same =
    let a = update_queues g.primary (rx pi) g.nb_rxq 0 q.rxq in
    let b = update_queues g.primary (tx pi) g.nb_txq 0 q.txq in
    ap (λ (y : LifePort). record y { rxq = a; txq = b }) same

pub start_packet_forwarding-Keeps :
    (g : Globals) (env : Driver) (r : Restart) (ports : List LifePort) (s : Lists) (i : ℕ)
    (p : LifePort)
    → Keeps i p ports
    → OnSome (Keeps i p) (start_packet_forwarding g env r ports s)
unfolding start_packet_forwarding update_queue_state
start_packet_forwarding-Keeps g env r ports s i p h =
    let K = OnSome (Keeps i p) in
    on_if K (g.nb_rxq == 0 || g.nb_txq == 0) tt (
      OnSome-bind (Keeps i p) (all_ports_started env ports) _ (λ ok. on_if K (not ok) h (
        OnSome-bind (Keeps i p) (fwd_config_setup r.fwd_env (state_of g s ports r.fwd)) _ (λ f.
          let next = sockets_out-Keeps f.ports ports i p h in
          OnSome-bind (Keeps i p)
            (pkt_fwd_shared_rxq_check r.rxq_share f.cfg.nb_fwd_lcores r.shared f.streams f.lcores) _
            (λ apart.
              on_if K (apart && r.stream_init)
                (each_port-Keeps (update_port g r.rx_info r.tx_info) i p
                  (λ pi q same. update_port-SamePort g r.rx_info r.tx_info pi p q same) port_all
                  env.devs (sockets_out f.ports ports) next)
                next)))))
