-- ===== src/Params/Numa.antt =====
-- lib/core/dpdk/parameters.c, `parse_portnuma_config` and `parse_ringnuma_config`: groups of numbers
-- in parentheses. A result of -1 is `false`; the settings then stay as the loop had them.
pub mod Sockets
pub mod Total
pub mod Kept
use udx_fastpath.Base.{
  ℕ, zero, suc, ◌+◌, ◌-◌, ◌<◌, Bool, true, false, ◌||◌, not, Option, none, some, List, [], ◌∷◌,
  ◌++◌, ltb, leb, ◌==◌, if◌then◌else◌, length, set, take, drop, u8,
}
use udx_fastpath.Select.Platform.{Platform, port_id_is_invalid, port_all}
use udx_fastpath.Fwd.Setup.{new_socket_id}
use udx_fastpath.Params.Text.{Word, strchr, strtoul, unconverted}

-- RTE_MAX_NUMA_NODES
abbrev pub max_numa_nodes : ℕ
max_numa_nodes = 32

-- The globals: the first `num_sockets` entries of `socket_ids`, and three arrays by port.
pub record Numa : Type 0 where
  pub socket_ids : List ℕ
  pub port_numa : List ℕ
  pub rxring_numa : List ℕ
  pub txring_numa : List ℕ

-- `rte_strsplit(s, sizeof(s), tokens, n, delim)` as the list of the tokens.
abbrev pub Strsplit : Type 0
Strsplit = List ℕ → ℕ → ℕ → List (List ℕ)

-- `int_fld`: each token is a number of at most 255.
unfoldable pub int_fields : List (List ℕ) → Option (List ℕ)
int_fields [] = some []
int_fields (str_fld ∷ rest) =
    let w = strtoul 0 str_fld in
    let others = int_fields rest in
    if w.erange || (unconverted str_fld w || ltb 255 w.value)
    then none
    else elim others [ none ↦ none | some xs ↦ some (w.value ∷ xs) ]

-- The text of a group that starts at `p`, and what starts at its `)`.
unfoldable pub closing : List ℕ → Option (List ℕ) → Option (List ℕ × List ℕ)
closing p none = none
closing p (some p0) =
    let size = length p - length p0 in if leb 256 size then none else some (take size p, p0)

-- The fields of a group, `n` of them.
unfoldable pub fields : Strsplit → ℕ → List ℕ → Option (List ℕ)
unfolding int_fields
fields strsplit n s =
    let tokens = strsplit s n b',' in if length tokens == n then int_fields tokens else none

-- The checks that both parsers make: the port, then the socket, which is recorded if it is new.
unfoldable pub check_port : Platform → ℕ → Bool
check_port p port_id = not (port_id_is_invalid p port_id || port_id == port_all)

unfoldable pub record_socket : ℕ → Numa → Option Numa
unfolding new_socket_id
record_socket socket_id s =
    if new_socket_id s.socket_ids socket_id
    then (if leb max_numa_nodes (length s.socket_ids)
        then none
        else some (record s { socket_ids = s.socket_ids ++ (socket_id ∷ []) }))
    else some s

unfoldable pub with_port_numa : ℕ → ℕ → Numa → Numa
with_port_numa port_id socket_id s = record s { port_numa = set s.port_numa port_id socket_id }

-- RX_RING_ONLY, TX_RING_ONLY and RXTX_RING are 1, 2 and 3.
pub with_ring_numa : ℕ → ℕ → ℕ → Numa → Numa
with_ring_numa ring_flag port_id socket_id s =
    if ring_flag == 1
    then record s { rxring_numa = set s.rxring_numa port_id socket_id }
    else (if ring_flag == 2
        then record s { txring_numa = set s.txring_numa port_id socket_id }
        else record s {
          rxring_numa = set s.rxring_numa port_id socket_id;
          txring_numa = set s.txring_numa port_id socket_id;
        })

abbrev pub after_socket : ℕ → ℕ → Numa → Option Numa → Numa × Bool
after_socket port_id socket_id s none = (s, false)
after_socket port_id socket_id s (some t) = (with_port_numa port_id socket_id t, true)

abbrev pub ring_socket : ℕ → ℕ → ℕ → Numa → Option Numa → Numa × Bool
ring_socket port_id ring_flag socket_id s none = (s, false)
ring_socket port_id ring_flag socket_id s (some t) =
    if ltb ring_flag 1 || ltb 3 ring_flag
    then (t, false)
    else (with_ring_numa ring_flag port_id socket_id t, true)

-- The body of a loop on the fields of one group: `false` is a return of -1.
unfoldable pub portnuma_group : Platform → List ℕ → Numa → Numa × Bool
unfolding check_port record_socket with_port_numa
portnuma_group p (port_id ∷ socket_id ∷ []) s =
    if check_port p port_id
    then after_socket port_id socket_id s (record_socket socket_id s)
    else (s, false)
portnuma_group p _ s = (s, false)

pub ringnuma_group : Platform → List ℕ → Numa → Numa × Bool
unfolding check_port record_socket with_ring_numa
ringnuma_group p (port_id ∷ ring_flag ∷ socket_id ∷ []) s =
    if check_port p port_id
    then ring_socket port_id ring_flag socket_id s (record_socket socket_id s)
    else (s, false)
ringnuma_group p _ s = (s, false)

-- One round of the loop: it ends, or goes on at the `)` of the group.
pub data Round : Type 0 where
  finished : Numa → Bool → Round
  again : List ℕ → Numa → Round

pub record Parser : Type 0 where
  pub strsplit : Strsplit
  pub nb_fields : ℕ
  pub body : List ℕ → Numa → Numa × Bool

unfoldable pub after_body : List ℕ → Numa × Bool → Round
after_body rest (s, ok) = if ok then again rest s else finished s false

unfoldable pub with_fields : Parser → List ℕ → Numa → Option (List ℕ) → Round
unfolding after_body
with_fields d rest s none = finished s false
with_fields d rest s (some xs) = after_body rest (d.body xs s)

unfoldable pub with_group : Parser → Numa → Option (List ℕ × List ℕ) → Round
unfolding with_fields fields
with_group d s none = finished s false
with_group d s (some (text, rest)) = with_fields d rest s (fields d.strsplit d.nb_fields text)

unfoldable pub at_paren : Parser → Numa → Option (List ℕ) → Round
unfolding with_group closing strchr
at_paren d s none = finished s true
at_paren d s (some q) = with_group d s (closing (drop 1 q) (strchr (drop 1 q) b')'))

unfoldable pub round : Parser → List ℕ → Numa → Round
unfolding at_paren strchr
round d p0 s = at_paren d s (strchr p0 b'(')

-- `none` is no fuel left.
unfoldable pub groups : Parser → ℕ → List ℕ → Numa → Option (Numa × Bool)
unfolding round
groups d zero p0 s = none
groups d (suc fuel) p0 s = elim (round d p0 s) [
  | finished t ok ↦ some (t, ok)
  | again rest t ↦ groups d fuel rest t
]

abbrev pub portnuma_parser : Strsplit → Platform → Parser
portnuma_parser strsplit p = record { strsplit = strsplit; nb_fields = 2; body = portnuma_group p }

abbrev pub ringnuma_parser : Strsplit → Platform → Parser
ringnuma_parser strsplit p = record { strsplit = strsplit; nb_fields = 3; body = ringnuma_group p }

unfoldable pub parse_portnuma_config : Strsplit → Platform → List ℕ → Numa → Option (Numa × Bool)
unfolding groups portnuma_group
parse_portnuma_config strsplit p q_arg s =
    groups (portnuma_parser strsplit p) (suc (length q_arg)) q_arg s

pub parse_ringnuma_config : Strsplit → Platform → List ℕ → Numa → Option (Numa × Bool)
unfolding groups ringnuma_group
parse_ringnuma_config strsplit p q_arg s =
    groups (ringnuma_parser strsplit p) (suc (length q_arg)) q_arg s
