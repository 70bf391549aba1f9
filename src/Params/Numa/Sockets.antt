-- ===== src/Params/Numa/Sockets.antt =====
-- What the two NUMA parsers of lib/core/dpdk/parameters.c keep, whatever the text.
use udx_fastpath.Base.{
  ℕ, zero, suc, ◌≤◌, ◌≡◌, refl, ◌∙◌, Bool, true, not, ◌||◌, Option, none, some, List, [], ◌∷◌, ◌++◌,
  arith, ltb, leb, ◌==◌, length, length-append, set, length-set, Bool-cases, inl, inr,
}
use udx_fastpath.Select.Platform.{Platform, contains}
use udx_fastpath.Select.PortList.Marking.{Distinct, contains-append, Distinct-append}
use udx_fastpath.Fwd.Setup.{new_socket_id, no_config}
use udx_fastpath.Params.Numa.{
  Numa, check_port, record_socket, with_port_numa, with_ring_numa, after_socket, ring_socket,
  portnuma_group, ringnuma_group, max_numa_nodes,
}

-- A port's entry is unset, or a socket that is recorded.
abbrev pub known : List ℕ → ℕ → Bool
known ids v = v == no_config || contains ids v

abbrev pub AllKnown : List ℕ → List ℕ → Type 0
AllKnown ids [] = Unit
AllKnown ids (x ∷ xs) = (known ids x ≡ true) × AllKnown ids xs

pub record IsNuma (ports : ℕ) (s : Numa) : Type 0 where
  pub distinct : Distinct s.socket_ids
  pub room : length s.socket_ids ≤ max_numa_nodes
  pub port_known : AllKnown s.socket_ids s.port_numa
  pub rx_known : AllKnown s.socket_ids s.rxring_numa
  pub tx_known : AllKnown s.socket_ids s.txring_numa
  pub port_size : length s.port_numa ≡ ports
  pub rx_size : length s.rxring_numa ≡ ports
  pub tx_size : length s.txring_numa ≡ ports

new_socket_id-contains : (ids : List ℕ) (v : ℕ) → new_socket_id ids v ≡ not (contains ids v)
unfolding new_socket_id contains
new_socket_id-contains [] v = refl
new_socket_id-contains (x ∷ xs) v = ground (arith, new_socket_id-contains xs v)

AllKnown-set :
    (ids xs : List ℕ) (i v : ℕ) → known ids v ≡ true → AllKnown ids xs → AllKnown ids (set xs i v)
AllKnown-set ids [] i v h a = tt
AllKnown-set ids (x ∷ xs) zero v h a = (h, a.1)
AllKnown-set ids (x ∷ xs) (suc i) v h a = (a.0, AllKnown-set ids xs i v h a.1)

AllKnown-append : (ids xs : List ℕ) (v : ℕ) → AllKnown ids xs → AllKnown (ids ++ (v ∷ [])) xs
AllKnown-append ids [] v a = tt
AllKnown-append ids (x ∷ xs) v a =
    (ground (arith, contains-append ids v x, a.0), AllKnown-append ids xs v a.1)

-- `P` of the result, if there is one.
abbrev OnSome : (Numa → Type 0) → Option Numa → Type 0
OnSome P none = Unit
OnSome P (some t) = P t

known-append : (ids : List ℕ) (v : ℕ) → known (ids ++ (v ∷ [])) v ≡ true
known-append ids v = ground (arith, contains-append ids v v)

-- A socket that is recorded is known, and the rest stays as it is.
record_socket-IsNuma :
    (ports socket_id : ℕ) (s : Numa)
    → IsNuma ports s
    → OnSome
        (λ t. IsNuma ports t × (known t.socket_ids socket_id ≡ true))
        (record_socket socket_id s)
unfolding record_socket
record_socket-IsNuma ports v s n = elim (Bool-cases (new_socket_id s.socket_ids v)) [
  | inl e ↦ elim (Bool-cases (leb max_numa_nodes (length s.socket_ids))) [
    | inl f ↦ rw (e, f) tt
    | inr f ↦
        rw (e, f)
          (
            record {
              distinct =
                  Distinct-append s.socket_ids v
                    (ground (arith, new_socket_id-contains s.socket_ids v, e)) n.distinct;
              room = ground (arith, f, length-append s.socket_ids (v ∷ []));
              port_known = AllKnown-append s.socket_ids s.port_numa v n.port_known;
              rx_known = AllKnown-append s.socket_ids s.rxring_numa v n.rx_known;
              tx_known = AllKnown-append s.socket_ids s.txring_numa v n.tx_known;
              port_size = n.port_size;
              rx_size = n.rx_size;
              tx_size = n.tx_size;
            },
            known-append s.socket_ids v,
          )
  ]
  | inr e ↦ rw e (n, ground (arith, new_socket_id-contains s.socket_ids v, e))
]

with_port_numa-IsNuma :
    (ports port_id v : ℕ) (s : Numa)
    → IsNuma ports s
    → known s.socket_ids v ≡ true
    → IsNuma ports (with_port_numa port_id v s)
unfolding with_port_numa
with_port_numa-IsNuma ports i v s n k = record {
  distinct = n.distinct;
  room = n.room;
  port_known = AllKnown-set s.socket_ids s.port_numa i v k n.port_known;
  rx_known = n.rx_known;
  tx_known = n.tx_known;
  port_size = length-set s.port_numa i v ∙ n.port_size;
  rx_size = n.rx_size;
  tx_size = n.tx_size;
}

with_rx :
    (ports port_id v : ℕ) (s : Numa)
    → IsNuma ports s
    → known s.socket_ids v ≡ true
    → IsNuma ports (record s { rxring_numa = set s.rxring_numa port_id v })
with_rx ports i v s n k = record {
  distinct = n.distinct;
  room = n.room;
  port_known = n.port_known;
  rx_known = AllKnown-set s.socket_ids s.rxring_numa i v k n.rx_known;
  tx_known = n.tx_known;
  port_size = n.port_size;
  rx_size = length-set s.rxring_numa i v ∙ n.rx_size;
  tx_size = n.tx_size;
}

with_tx :
    (ports port_id v : ℕ) (s : Numa)
    → IsNuma ports s
    → known s.socket_ids v ≡ true
    → IsNuma ports (record s { txring_numa = set s.txring_numa port_id v })
with_tx ports i v s n k = record {
  distinct = n.distinct;
  room = n.room;
  port_known = n.port_known;
  rx_known = n.rx_known;
  tx_known = AllKnown-set s.socket_ids s.txring_numa i v k n.tx_known;
  port_size = n.port_size;
  rx_size = n.rx_size;
  tx_size = length-set s.txring_numa i v ∙ n.tx_size;
}

with_ring_numa-IsNuma :
    (ports flag port_id v : ℕ) (s : Numa)
    → IsNuma ports s
    → known s.socket_ids v ≡ true
    → IsNuma ports (with_ring_numa flag port_id v s)
unfolding with_ring_numa
with_ring_numa-IsNuma ports flag i v s n k = elim (Bool-cases (flag == 1)) [
  | inl e ↦ rw e (with_rx ports i v s n k)
  | inr e ↦ elim (Bool-cases (flag == 2)) [
    | inl f ↦ rw (e, f) (with_tx ports i v s n k)
    | inr f ↦
        rw (e, f)
          (with_tx ports i v (record s { rxring_numa = set s.rxring_numa i v })
            (with_rx ports i v s n k) k)
  ]
]

pub portnuma_group-IsNuma :
    (ports : ℕ) (p : Platform) (xs : List ℕ) (s : Numa)
    → IsNuma ports s
    → IsNuma ports (portnuma_group p xs s).0
unfolding portnuma_group
portnuma_group-IsNuma ports p [] s n = n
portnuma_group-IsNuma ports p (_ ∷ []) s n = n
portnuma_group-IsNuma ports p (i ∷ v ∷ []) s n = elim (Bool-cases (check_port p i)) [
  | inl e ↦ rw e (
      elim (record_socket v s)
          as (λ o.
            OnSome (λ t. IsNuma ports t × (known t.socket_ids v ≡ true)) o
            → IsNuma ports (after_socket i v s o).0) [
              | none ↦ λ _. n
              | some t ↦ λ h. with_port_numa-IsNuma ports i v t h.0 h.1
            ]
        (record_socket-IsNuma ports v s n))
  | inr e ↦ rw e n
]
portnuma_group-IsNuma ports p (_ ∷ _ ∷ _ ∷ _) s n = n

pub ringnuma_group-IsNuma :
    (ports : ℕ) (p : Platform) (xs : List ℕ) (s : Numa)
    → IsNuma ports s
    → IsNuma ports (ringnuma_group p xs s).0
unfolding ringnuma_group
ringnuma_group-IsNuma ports p [] s n = n
ringnuma_group-IsNuma ports p (_ ∷ []) s n = n
ringnuma_group-IsNuma ports p (_ ∷ _ ∷ []) s n = n
ringnuma_group-IsNuma ports p (i ∷ f ∷ v ∷ []) s n = elim (Bool-cases (check_port p i)) [
  | inl e ↦ rw e (
      elim (record_socket v s)
          as (λ o.
            OnSome (λ t. IsNuma ports t × (known t.socket_ids v ≡ true)) o
            → IsNuma ports (ring_socket i f v s o).0) [
              | none ↦ λ _. n
              | some t ↦ λ h. elim (Bool-cases (ltb f 1 || ltb 3 f)) [
                | inl k ↦ rw k h.0
                | inr k ↦ rw k (with_ring_numa-IsNuma ports f i v t h.0 h.1)
              ]
            ]
        (record_socket-IsNuma ports v s n))
  | inr e ↦ rw e n
]
ringnuma_group-IsNuma ports p (_ ∷ _ ∷ _ ∷ _ ∷ _) s n = n
