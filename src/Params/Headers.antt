-- ===== src/Params/Headers.antt =====
-- lib/core/dpdk/util.c, `get_ptype` and `parse_hdrs_list`. The array has no more than `max_items`
-- entries, and the loop does not look at that number: `none` is a write past its end.
pub mod Names
pub mod Room
use udx_fastpath.Base.{
  ℕ, suc, Bool, Option, none, some, ◌>>=◌, List, [], ◌∷◌, ◌==◌, if◌then◌else◌, store,
}
use Prim.Native.Nat.{bit_or}
use udx_fastpath.Params.Text.{codes, same}

-- The masks RTE_PTYPE_* of rte_mbuf_ptype.h.
pub record PtypeMasks : Type 0 where
  pub l2_ether : ℕ
  pub l3_ipv4 : ℕ
  pub l3_ipv6 : ℕ
  pub l4_tcp : ℕ
  pub l4_udp : ℕ
  pub l4_sctp : ℕ
  pub grenat : ℕ
  pub inner_l2_ether : ℕ
  pub inner_l3_ipv4 : ℕ
  pub inner_l3_ipv6 : ℕ
  pub inner_l4_tcp : ℕ
  pub inner_l4_udp : ℕ
  pub inner_l4_sctp : ℕ

-- RTE_PTYPE_UNKNOWN is 0.
pub get_ptype : PtypeMasks → List ℕ → ℕ
get_ptype m value =
    let ipv4 = bit_or m.l2_ether m.l3_ipv4 in
    let ipv6 = bit_or m.l2_ether m.l3_ipv6 in
    let inner = bit_or m.grenat m.inner_l2_ether in
    let inner4 = bit_or inner m.inner_l3_ipv4 in
    let inner6 = bit_or inner m.inner_l3_ipv6 in
    if same value (codes "eth")
    then m.l2_ether
    else if same value (codes "ipv4")
    then ipv4
    else if same value (codes "ipv6")
    then ipv6
    else if same value (codes "ipv4-tcp")
    then bit_or ipv4 m.l4_tcp
    else if same value (codes "ipv4-udp")
    then bit_or ipv4 m.l4_udp
    else if same value (codes "ipv4-sctp")
    then bit_or ipv4 m.l4_sctp
    else if same value (codes "ipv6-tcp")
    then bit_or ipv6 m.l4_tcp
    else if same value (codes "ipv6-udp")
    then bit_or ipv6 m.l4_udp
    else if same value (codes "ipv6-sctp")
    then bit_or ipv6 m.l4_sctp
    else if same value (codes "grenat")
    then m.grenat
    else if same value (codes "inner-eth")
    then inner
    else if same value (codes "inner-ipv4")
    then inner4
    else if same value (codes "inner-ipv6")
    then inner6
    else if same value (codes "inner-ipv4-tcp")
    then bit_or inner4 m.inner_l4_tcp
    else if same value (codes "inner-ipv4-udp")
    then bit_or inner4 m.inner_l4_udp
    else if same value (codes "inner-ipv4-sctp")
    then bit_or inner4 m.inner_l4_sctp
    else if same value (codes "inner-ipv6-tcp")
    then bit_or inner6 m.inner_l4_tcp
    else if same value (codes "inner-ipv6-udp")
    then bit_or inner6 m.inner_l4_udp
    else if same value (codes "inner-ipv6-sctp")
    then bit_or inner6 m.inner_l4_sctp
    else 0

-- The tokens of `strtok_r(..., ",", ...)`: a new one goes in front, with the letter if there is one.
abbrev pub extend : ℕ → List (List ℕ) → List (List ℕ)
extend c [] = (c ∷ []) ∷ []
extend c (t ∷ ts) = (c ∷ t) ∷ ts

unfoldable pub pieces : List ℕ → List (List ℕ)
pieces [] = [] ∷ []
pieces (c ∷ cs) = if c == b',' then [] ∷ pieces cs else extend c (pieces cs)

unfoldable pub nonempty : List (List ℕ) → List (List ℕ)
nonempty [] = []
nonempty ([] ∷ ts) = nonempty ts
nonempty ((c ∷ t) ∷ ts) = (c ∷ t) ∷ nonempty ts

unfoldable pub strtok : List ℕ → List (List ℕ)
unfolding pieces nonempty
strtok str = nonempty (pieces str)

pub store_ptypes : PtypeMasks → ℕ → List (List ℕ) → List ℕ → Option (ℕ × List ℕ)
unfolding get_ptype
store_ptypes m nb_item [] items = some (nb_item, items)
store_ptypes m nb_item (t ∷ ts) items =
    store items nb_item (get_ptype m t) >>= λ next. store_ptypes m (suc nb_item) ts next

pub parse_hdrs_list : PtypeMasks → List ℕ → List ℕ → Option (ℕ × List ℕ)
unfolding store_ptypes strtok
parse_hdrs_list m str items = store_ptypes m 0 (strtok str) items
