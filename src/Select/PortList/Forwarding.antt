-- ===== src/Select/PortList/Forwarding.antt =====
-- Which ports forward after `parse_fwd_portlist`.
use udx_fastpath.Base.{
  ℕ, ◌≤◌, ◌<◌, ◌≡◌, refl, true, ◌&&◌, List, [], ◌∷◌, none, some, arith, length, if◌then◌else◌, ◌==◌,
  u16, map, take, take-overwrite,
}
use udx_fastpath.Fwd.Types.{State}
use udx_fastpath.Select.Platform.{Platform, contains, port_id_is_invalid}
use udx_fastpath.Select.Ports.Chosen.{all_valid, with_ports, set_fwd_ports_list_lem}
use udx_fastpath.Select.PortList.{parse_port_list, valid_ports, parse_fwd_portlist}
use udx_fastpath.Select.Platform.{AllBelow}
use udx_fastpath.Select.PortList.Bounds.{parse_port_list-Distinct}

length-valid_ports : (p : Platform) (v : List ℕ) → length (valid_ports p v) ≤ length v
unfolding valid_ports
length-valid_ports p [] = omega arith
length-valid_ports p (x ∷ v) = ground (arith, length-valid_ports p v)

all_valid-valid_ports :
    (p : Platform) (n : ℕ) (v : List ℕ)
    → ((x : ℕ) → p.is_valid_port x ≡ contains p.devs x)
    → AllBelow n v
    → n ≤ 65536
    → (all_valid p (valid_ports p v) ≡ true) × (map u16 (valid_ports p v) ≡ valid_ports p v)
unfolding valid_ports port_id_is_invalid
all_valid-valid_ports p n [] same b w = (refl, refl)
all_valid-valid_ports p n (x ∷ v) same b w =
    let small : u16 x ≡ x = omega arith in
    ground (arith, same x, all_valid-valid_ports p n v same b.1 w)

contains-valid_ports :
    (p : Platform) (v : List ℕ) (c : ℕ)
    → contains (valid_ports p v) c ≡ (contains v c && p.is_valid_port c)
unfolding valid_ports contains
contains-valid_ports p [] c = refl
contains-valid_ports p (x ∷ v) c = ground (arith, contains-valid_ports p v c)

-- If the valid ports are the probed ones, and the size is below 65536 and the array has room for
-- it, a list from which some port is parsed makes exactly its valid ports forward; any other list
-- ends the process.
pub parse_fwd_portlist-chooses :
    (p : Platform) (max_ethports : ℕ) (cs v : List ℕ) (s : State)
    → ((x : ℕ) → p.is_valid_port x ≡ contains p.devs x)
    → max_ethports < 65536
    → max_ethports ≤ length s.fwd_ports_ids
    → parse_port_list max_ethports cs ≡ some v
    → (parse_fwd_portlist p max_ethports cs s
        ≡ (if length v == 0 then none else some (with_ports (valid_ports p v) s)))
      × ((c : ℕ)
          → let t = with_ports (valid_ports p v) s in
            contains (take t.nb_fwd_ports t.fwd_ports_ids) c ≡ (contains v c && p.is_valid_port c))
unfolding parse_fwd_portlist
parse_fwd_portlist-chooses p max_ethports cs v s same w room parsed =
    let (distinct, below, few) = parse_port_list-Distinct max_ethports cs v parsed in
    let fewer = length-valid_ports p v in
    let (valid, words) = all_valid-valid_ports p max_ethports v same below (omega arith) in
    let set_list = set_fwd_ports_list_lem p (valid_ports p v) s (omega arith) in
    let nb : u16 (length (valid_ports p v)) ≡ length (valid_ports p v) = omega arith in
    (
      rw (parsed, set_list, valid),
      λ c.
          rw (words, nb, take-overwrite s.fwd_ports_ids (valid_ports p v) (omega arith))
            (contains-valid_ports p v c),
    )
