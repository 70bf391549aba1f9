-- ===== src/Fwd/Topology.antt =====
-- config.c, `fwd_topology_tx_port_get`: the port that sends what a port receives.
use udx_fastpath.Base.{
  ℕ, ◌+◌, ◌-◌, ◌%◌, ◌<◌, ◌≡◌, ◌⊎◌, inl, inr, arith, ltb, ◌==◌, if◌then◌else◌, u16,
}
use native.Mathlib.Decide.{dec_lt}
use native.Mathlib.Nat.{mod-eq_of_lt, mod_self}
use udx_fastpath.Fwd.Types.{Topology, paired, chained, loop}

-- `rxp` and the result are positions in the list of forwarding ports. Only a warning is left out.
pub fwd_topology_tx_port_get : Topology → ℕ → ℕ → ℕ
fwd_topology_tx_port_get paired nb_fwd_ports rxp =
    if rxp % 2 == 0 then (if ltb (rxp + 1) nb_fwd_ports then u16 (rxp + 1) else rxp) else rxp - 1
fwd_topology_tx_port_get chained nb_fwd_ports rxp = u16 ((rxp + 1) % nb_fwd_ports)
fwd_topology_tx_port_get loop nb_fwd_ports rxp = rxp

-- With fewer than 65536 forwarding ports, in every topology a forwarding port sends to a forwarding
-- port.
pub fwd_topology_tx_port_get-lt :
    (t : Topology) (nb rxp : ℕ) → nb < 65536 → rxp < nb → fwd_topology_tx_port_get t nb rxp < nb
unfolding fwd_topology_tx_port_get
fwd_topology_tx_port_get-lt paired nb rxp w h = ground arith
fwd_topology_tx_port_get-lt chained nb rxp w h = omega arith
fwd_topology_tx_port_get-lt loop nb rxp w h = h

-- With fewer than 65536 forwarding ports, paired ports send to one another.
pub fwd_topology_tx_port_get_involutive :
    (nb rxp : ℕ)
    → nb < 65536
    → rxp < nb
    → fwd_topology_tx_port_get paired nb (fwd_topology_tx_port_get paired nb rxp) ≡ rxp
unfolding fwd_topology_tx_port_get
fwd_topology_tx_port_get_involutive nb rxp w h = ground arith

succ-mod :
    (nb p : ℕ)
    → p < nb
    → ((p + 1 < nb) × ((p + 1) % nb ≡ p + 1)) ⊎ ((p + 1 ≡ nb) × ((p + 1) % nb ≡ 0))
succ-mod nb p h = elim (dec_lt (p + 1) nb) [
  | yes lt ↦ inl (lt, mod-eq_of_lt lt)
  | no nlt ↦ inr (omega arith, let e : p + 1 ≡ nb = omega arith in rw e (mod_self nb))
]

-- With fewer than 65536 forwarding ports, in every topology two forwarding ports send to different
-- ports.
pub fwd_topology_tx_port_get_injective :
    (t : Topology) (nb p q : ℕ)
    → nb < 65536
    → p < nb
    → q < nb
    → fwd_topology_tx_port_get t nb p ≡ fwd_topology_tx_port_get t nb q
    → p ≡ q
unfolding fwd_topology_tx_port_get
fwd_topology_tx_port_get_injective paired nb p q w hp hq e = ground arith
fwd_topology_tx_port_get_injective chained nb p q w hp hq e =
    ground (arith, succ-mod nb p hp, succ-mod nb q hq)
fwd_topology_tx_port_get_injective loop nb p q w hp hq e = e
