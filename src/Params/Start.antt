-- ===== src/Params/Start.antt =====
-- lib/core/dpdk/parameters.c, `init_peer_eth_addrs`, `parse_xstats_list` and the options of
-- `launch_args_parse` on the start of the program.
use udx_fastpath.Base.{
  ℕ, suc, ◌+◌, ◌-◌, Bool, true, ◌&&◌, ◌||◌, not, Option, none, some, List, [], ◌∷◌, map, leb, ◌==◌,
  if◌then◌else◌, length, set, take, u16, u32,
}
use udx_fastpath.Params.Text.{Word, same, strtoul, unconverted, nonneg}
use udx_fastpath.Params.Headers.{nonempty}
use udx_fastpath.Params.Numa.{Strsplit}
use udx_fastpath.Params.Outcome.{Outcome, next, exit_failure, fault}
use udx_fastpath.Params.Options.{
  StartOption, interactive, auto_start, tx_first, cmdline_file, display_xstats,
  eth_peers_configfile, eth_peer,
}

-- PATH_MAX, and the size of a name of `struct rte_eth_xstat_name`.
abbrev pub path_max : ℕ
path_max = 4096

abbrev pub xstat_name_size : ℕ
xstat_name_size = 64

pub record Start : Type 0 where
  pub interactive : Bool
  pub auto_start : Bool
  pub tx_first : Bool
  pub cmdline_filename : List ℕ
  pub stats_period : ℕ
  pub xstats_display : List (List ℕ)
  pub peer_eth_addrs : List ℕ
  pub nb_peer_eth_addrs : ℕ

-- `rte_strsplit`, `rte_ether_unformat_addr`, whether an allocation of that many elements succeeds,
-- and the lines that `fopen` and `fgets` read of a file.
pub record StartEnv : Type 0 where
  pub strsplit : Strsplit
  pub unformat_addr : List ℕ → Option ℕ
  pub calloc : ℕ → Bool
  pub read_lines : List ℕ → Option (List (List ℕ))

-- The loop of `init_peer_eth_addrs` over the first entries of `peer_eth_addrs`; `none` is a result
-- of -1. The number of the lines comes with the addresses.
pub peer_lines : StartEnv → List (List ℕ) → ℕ → List ℕ → Option (ℕ × List ℕ)
peer_lines env [] i addrs = some (i, addrs)
peer_lines env (l ∷ ls) i addrs = elim (env.unformat_addr l) [
  | none ↦ none
  | some a ↦ peer_lines env ls (suc i) (set addrs i a)
]

pub init_peer_eth_addrs : StartEnv → List ℕ → List ℕ → Option (ℕ × List ℕ)
unfolding peer_lines
init_peer_eth_addrs env config_filename addrs = elim (env.read_lines config_filename) [
  | none ↦ none
  | some ls ↦ peer_lines env (take (length addrs) ls) 0 addrs
]

-- `max_names_nb`: one more than the commas.
pub max_names : List ℕ → ℕ
max_names [] = 1
max_names (c ∷ cs) = if c == b',' then suc (max_names cs) else max_names cs

-- `none` is an error. A name is cut to the size of its array.
pub parse_xstats_list : StartEnv → List ℕ → Option (List (List ℕ))
unfolding max_names nonempty
parse_xstats_list env in_str =
    let names = nonempty (env.strsplit in_str (max_names in_str) b',') in
    if env.calloc (max_names in_str) && env.calloc (length names)
    then some (map (take (xstat_name_size - 1)) names)
    else none

unfoldable pub stats_period_option : List ℕ → Start → Start
unfolding strtoul
stats_period_option a s =
    if same a [] || not (same (strtoul 10 a).end [])
    then s
    else record s { stats_period = u32 (strtoul 10 a).value }

pub with_xstats : Option (List (List ℕ)) → Start → Outcome Start
with_xstats none s = exit_failure
with_xstats (some names) s = next (record s { xstats_display = names })

pub with_peers : Option (ℕ × List ℕ) → Start → Outcome Start
with_peers none s = exit_failure
with_peers (some (n, addrs)) s =
    next (record s { peer_eth_addrs = addrs; nb_peer_eth_addrs = u16 n })

-- The address is parsed into the entry `n`.
pub with_peer : ℕ → Option ℕ → Start → Outcome Start
with_peer n none s = exit_failure
with_peer n (some a) s =
    if leb (length s.peer_eth_addrs) n
    then fault
    else next (record s {
      peer_eth_addrs = set s.peer_eth_addrs n a;
      nb_peer_eth_addrs = u16 (s.nb_peer_eth_addrs + 1);
    })

-- The number of a port, a comma and the address. The number is an `int`, of which the test refuses
-- only what is too large.
pub peer_option : StartEnv → List ℕ → Word → Start → Outcome Start
unfolding with_peer
peer_option env a w s = elim w.end [
  | [] ↦ exit_failure
  | c ∷ addr ↦
      if (w.erange || unconverted a w) || not (c == b',')
      then exit_failure
      else (if nonneg (u32 w.value) && leb (length s.peer_eth_addrs) (u32 w.value)
          then exit_failure
          else with_peer (u32 w.value) (env.unformat_addr addr) s)
]

unfoldable pub start_option : StartEnv → StartOption → Start → Outcome Start
unfolding with_xstats with_peers peer_option parse_xstats_list init_peer_eth_addrs strtoul
start_option env interactive s = next (record s { interactive = true })
start_option env auto_start s = next (record s { auto_start = true })
start_option env tx_first s = next (record s { tx_first = true })
start_option env (cmdline_file a) s = next (record s { cmdline_filename = take (path_max - 1) a })
start_option env (display_xstats a) s = with_xstats (parse_xstats_list env a) s
start_option env (eth_peers_configfile a) s =
    with_peers (init_peer_eth_addrs env a s.peer_eth_addrs) s
start_option env (eth_peer a) s = peer_option env a (strtoul 10 a) s
