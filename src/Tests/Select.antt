-- ===== src/Tests/Select.antt =====
-- Cores 1 and 2 may forward, core 0 is the main core, and ports 0, 1 and 2 are probed: config.c, the
-- selection of cores and ports.
use udx_fastpath.Base.{
  ℕ, ◌≤◌, ◌≡◌, refl, true, ◌&&◌, ◌||◌, List, [], ◌∷◌, some, arith, take, ◌==◌, replicate,
}
use udx_fastpath.Fwd.Types.{State}
use udx_fastpath.Tests.Fwd.{two_ports}
use udx_fastpath.Select.Platform.{Platform, contains, port_id_is_invalid}
use udx_fastpath.Select.Cores.{mask_lcores}
use udx_fastpath.Select.Cores.Chosen.{all_usable}
use udx_fastpath.Select.Ports.Chosen.{with_ports, all_valid}
use udx_fastpath.Select.PortList.{
  parse_port_list, parse_rounds, round, at_item, after_value, mark_item, mark_range, mark,
  valid_ports, parse_fwd_portlist,
}
use udx_fastpath.Select.Strtol.{strtol, signed, after_sign, read_digits, skip_space, skip_blank}
use udx_fastpath.Select.PortList.Total.{parse_port_list-total}
use udx_fastpath.Select.PortList.Marking.{Distinct}
use udx_fastpath.Select.Platform.{AllBelow}
use udx_fastpath.Select.PortList.Bounds.{parse_port_list-Distinct}
use udx_fastpath.Select.PortList.Grammar.{one, range, parse_port_list-items}
use udx_fastpath.Select.PortList.Forwarding.{parse_fwd_portlist-chooses}

abbrev pub three_ports : Platform
three_ports = record {
  lcore_is_enabled = λ c. c == 0 || (c == 1 || c == 2);
  main_lcore = 0;
  devs = 0 ∷ 1 ∷ 2 ∷ [];
  is_valid_port = λ p. contains (0 ∷ 1 ∷ 2 ∷ []) p;
}

abbrev pub wide : State
wide = record (two_ports 1) { fwd_lcores_cpuids = replicate 64 0; fwd_ports_ids = replicate 64 0 }

pub cores_six : all_usable three_ports (mask_lcores 6 64 0) ≡ true
unfolding mask_lcores
cores_six = refl

ports_valid : all_valid three_ports (1 ∷ 0 ∷ []) ≡ true
unfolding port_id_is_invalid contains
ports_valid = refl

-- "0-2,1"
abbrev some_list : List ℕ
some_list = b'0' ∷ b'-' ∷ b'2' ∷ b',' ∷ b'1' ∷ []

parses : parse_port_list 32 some_list ≡ some (0 ∷ 1 ∷ 2 ∷ [])
unfolding parse_port_list parse_rounds round at_item after_value mark_item mark_range mark strtol
    signed after_sign read_digits skip_space skip_blank
parses = refl

-- An empty item counts as port 0, and a range without an end is dropped.
parses_odd :
    (parse_port_list 32 (b',' ∷ []) ≡ some (0 ∷ []))
    × (parse_port_list 32 (b'1' ∷ b',' ∷ b'3' ∷ b'-' ∷ []) ≡ some (1 ∷ []))
unfolding parse_port_list parse_rounds round at_item after_value mark_item mark_range mark strtol
    signed after_sign read_digits skip_space skip_blank
parses_odd = (refl, refl)

parse_port_list-total_example : (v : List ℕ) × (parse_port_list 32 (b'x' ∷ []) ≡ some v)
parse_port_list-total_example = parse_port_list-total 32 (b'x' ∷ [])

parse_port_list-Distinct_example :
    Distinct (0 ∷ 1 ∷ 2 ∷ []) × AllBelow 32 (0 ∷ 1 ∷ 2 ∷ []) × (3 ≤ 32)
parse_port_list-Distinct_example = parse_port_list-Distinct 32 some_list (0 ∷ 1 ∷ 2 ∷ []) parses

parse_port_list-items_example : parse_port_list 32 some_list ≡ some (0 ∷ 1 ∷ 2 ∷ [])
unfolding contains read_digits
parse_port_list-items_example =
    parse_port_list-items 32 (range b'0' [] b'2' []) (one b'1' [] ∷ []) (omega arith)
      ((((refl, tt), omega arith), ((refl, tt), omega arith)), (((refl, tt), omega arith), tt))

parse_fwd_portlist-chooses_example :
    (parse_fwd_portlist three_ports 32 some_list wide
      ≡ some (with_ports (valid_ports three_ports (0 ∷ 1 ∷ 2 ∷ [])) wide))
    × ((c : ℕ)
        → let t = with_ports (valid_ports three_ports (0 ∷ 1 ∷ 2 ∷ [])) wide in
          contains (take t.nb_fwd_ports t.fwd_ports_ids) c
          ≡ (contains (0 ∷ 1 ∷ 2 ∷ []) c && contains (0 ∷ 1 ∷ 2 ∷ []) c))
parse_fwd_portlist-chooses_example =
    parse_fwd_portlist-chooses three_ports 32 some_list (0 ∷ 1 ∷ 2 ∷ []) wide (λ x. refl)
      (omega arith) (omega arith) parses
