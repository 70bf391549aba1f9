-- ===== src/Params/Headers/Names.antt =====
-- The names of headers that `get_ptype` of lib/core/dpdk/util.c knows, and what they stand for.
use udx_fastpath.Base.{ℕ, ◌≡◌, ◌≢◌, refl, Bool-cases, inl, inr, List, [], ◌∷◌, if◌then◌else◌}
use Prim.Native.Nat.{bit_or}
use udx_fastpath.Params.Text.{codes, same, same-eq}
use udx_fastpath.Params.Headers.{PtypeMasks, get_ptype}

pub data Header : Type 0 where
  eth ipv4 ipv6 ipv4_tcp ipv4_udp ipv4_sctp ipv6_tcp ipv6_udp ipv6_sctp grenat : Header
  inner_eth inner_ipv4 inner_ipv6 inner_ipv4_tcp inner_ipv4_udp inner_ipv4_sctp inner_ipv6_tcp
        inner_ipv6_udp inner_ipv6_sctp :
      Header

abbrev pub header_name : Header → List ℕ
header_name eth = codes "eth"
header_name ipv4 = codes "ipv4"
header_name ipv6 = codes "ipv6"
header_name ipv4_tcp = codes "ipv4-tcp"
header_name ipv4_udp = codes "ipv4-udp"
header_name ipv4_sctp = codes "ipv4-sctp"
header_name ipv6_tcp = codes "ipv6-tcp"
header_name ipv6_udp = codes "ipv6-udp"
header_name ipv6_sctp = codes "ipv6-sctp"
header_name grenat = codes "grenat"
header_name inner_eth = codes "inner-eth"
header_name inner_ipv4 = codes "inner-ipv4"
header_name inner_ipv6 = codes "inner-ipv6"
header_name inner_ipv4_tcp = codes "inner-ipv4-tcp"
header_name inner_ipv4_udp = codes "inner-ipv4-udp"
header_name inner_ipv4_sctp = codes "inner-ipv4-sctp"
header_name inner_ipv6_tcp = codes "inner-ipv6-tcp"
header_name inner_ipv6_udp = codes "inner-ipv6-udp"
header_name inner_ipv6_sctp = codes "inner-ipv6-sctp"

-- The layers up to the header, the lowest first; a header in a tunnel has the tunnel in front.
abbrev pub layers : PtypeMasks → Header → List ℕ
layers m eth = m.l2_ether ∷ []
layers m ipv4 = m.l2_ether ∷ m.l3_ipv4 ∷ []
layers m ipv6 = m.l2_ether ∷ m.l3_ipv6 ∷ []
layers m ipv4_tcp = m.l2_ether ∷ m.l3_ipv4 ∷ m.l4_tcp ∷ []
layers m ipv4_udp = m.l2_ether ∷ m.l3_ipv4 ∷ m.l4_udp ∷ []
layers m ipv4_sctp = m.l2_ether ∷ m.l3_ipv4 ∷ m.l4_sctp ∷ []
layers m ipv6_tcp = m.l2_ether ∷ m.l3_ipv6 ∷ m.l4_tcp ∷ []
layers m ipv6_udp = m.l2_ether ∷ m.l3_ipv6 ∷ m.l4_udp ∷ []
layers m ipv6_sctp = m.l2_ether ∷ m.l3_ipv6 ∷ m.l4_sctp ∷ []
layers m grenat = m.grenat ∷ []
layers m inner_eth = m.grenat ∷ m.inner_l2_ether ∷ []
layers m inner_ipv4 = m.grenat ∷ m.inner_l2_ether ∷ m.inner_l3_ipv4 ∷ []
layers m inner_ipv6 = m.grenat ∷ m.inner_l2_ether ∷ m.inner_l3_ipv6 ∷ []
layers m inner_ipv4_tcp = m.grenat ∷ m.inner_l2_ether ∷ m.inner_l3_ipv4 ∷ m.inner_l4_tcp ∷ []
layers m inner_ipv4_udp = m.grenat ∷ m.inner_l2_ether ∷ m.inner_l3_ipv4 ∷ m.inner_l4_udp ∷ []
layers m inner_ipv4_sctp = m.grenat ∷ m.inner_l2_ether ∷ m.inner_l3_ipv4 ∷ m.inner_l4_sctp ∷ []
layers m inner_ipv6_tcp = m.grenat ∷ m.inner_l2_ether ∷ m.inner_l3_ipv6 ∷ m.inner_l4_tcp ∷ []
layers m inner_ipv6_udp = m.grenat ∷ m.inner_l2_ether ∷ m.inner_l3_ipv6 ∷ m.inner_l4_udp ∷ []
layers m inner_ipv6_sctp = m.grenat ∷ m.inner_l2_ether ∷ m.inner_l3_ipv6 ∷ m.inner_l4_sctp ∷ []

abbrev pub or_from : ℕ → List ℕ → ℕ
or_from n [] = n
or_from n (x ∷ xs) = or_from (bit_or n x) xs

-- The masks of the layers, or-ed.
abbrev pub or_all : List ℕ → ℕ
or_all [] = 0
or_all (x ∷ xs) = or_from x xs

pub get_ptype-header_name :
    (m : PtypeMasks) (h : Header) → get_ptype m (header_name h) ≡ or_all (layers m h)
unfolding get_ptype
get_ptype-header_name m eth = refl
get_ptype-header_name m ipv4 = refl
get_ptype-header_name m ipv6 = refl
get_ptype-header_name m ipv4_tcp = refl
get_ptype-header_name m ipv4_udp = refl
get_ptype-header_name m ipv4_sctp = refl
get_ptype-header_name m ipv6_tcp = refl
get_ptype-header_name m ipv6_udp = refl
get_ptype-header_name m ipv6_sctp = refl
get_ptype-header_name m grenat = refl
get_ptype-header_name m inner_eth = refl
get_ptype-header_name m inner_ipv4 = refl
get_ptype-header_name m inner_ipv6 = refl
get_ptype-header_name m inner_ipv4_tcp = refl
get_ptype-header_name m inner_ipv4_udp = refl
get_ptype-header_name m inner_ipv4_sctp = refl
get_ptype-header_name m inner_ipv6_tcp = refl
get_ptype-header_name m inner_ipv6_udp = refl
get_ptype-header_name m inner_ipv6_sctp = refl

other_name :
    (value name : List ℕ) (x rest : ℕ)
    → value ≢ name
    → rest ≡ 0
    → (if same value name then x else rest) ≡ 0
other_name value name x rest ne e = elim (Bool-cases (same value name)) [
  | inl t ↦ absurd (ne (same-eq value name t))
  | inr f ↦ rw f e
]

pub get_ptype-unknown :
    (m : PtypeMasks) (value : List ℕ)
    → ((h : Header) → value ≢ header_name h)
    → get_ptype m value ≡ 0
unfolding get_ptype
get_ptype-unknown m value other = other_name value (header_name eth) _ _ (other eth) (
    other_name value (header_name ipv4) _ _ (other ipv4) (
      other_name value (header_name ipv6) _ _ (other ipv6) (
        other_name value (header_name ipv4_tcp) _ _ (other ipv4_tcp) (
          other_name value (header_name ipv4_udp) _ _ (other ipv4_udp) (
            other_name value (header_name ipv4_sctp) _ _ (other ipv4_sctp) (
              other_name value (header_name ipv6_tcp) _ _ (other ipv6_tcp) (
                other_name value (header_name ipv6_udp) _ _ (other ipv6_udp) (
                  other_name value (header_name ipv6_sctp) _ _ (other ipv6_sctp) (
                    other_name value (header_name grenat) _ _ (other grenat) (
                      other_name value (header_name inner_eth) _ _ (other inner_eth) (
                        other_name value (header_name inner_ipv4) _ _ (other inner_ipv4) (
                          other_name value (header_name inner_ipv6) _ _ (other inner_ipv6) (
                            other_name value (header_name inner_ipv4_tcp) _ _ (other inner_ipv4_tcp)
                              (other_name value (header_name inner_ipv4_udp) _ _
                                (other inner_ipv4_udp)
                                (other_name value (header_name inner_ipv4_sctp) _ _
                                  (other inner_ipv4_sctp)
                                  (other_name value (header_name inner_ipv6_tcp) _ _
                                    (other inner_ipv6_tcp)
                                    (other_name value (header_name inner_ipv6_udp) _ _
                                      (other inner_ipv6_udp)
                                      (other_name value (header_name inner_ipv6_sctp) _ _
                                        (other inner_ipv6_sctp) refl))))))))))))))))))
