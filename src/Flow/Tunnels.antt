-- ===== src/Flow/Tunnels.antt =====
-- config.c, the list of the tunnels of a port: `port_flow_locate_tunnel_id`,
-- `port_flow_tunnel_create` and `port_flow_tunnel_destroy`.
use udx_fastpath.Base.{
  ℕ, ◌+◌, Bool, true, false, Option, none, some, List, [], ◌∷◌, ◌==◌, if◌then◌else◌, u32,
}
use udx_fastpath.Params.Text.{codes, same}

-- RTE_FLOW_ITEM_TYPE_VXLAN, ...
pub data TunnelType : Type 0 where
  vxlan gre nvgre geneve : TunnelType

abbrev pub same_type : TunnelType → TunnelType → Bool
same_type vxlan vxlan = true
same_type gre gre = true
same_type nvgre nvgre = true
same_type geneve geneve = true
same_type _ _ = false

-- `struct port_flow_tunnel`.
pub record Tunnel : Type 0 where
  pub id : ℕ
  pub type : TunnelType

unfoldable pub port_flow_locate_tunnel_id : ℕ → List Tunnel → Option Tunnel
port_flow_locate_tunnel_id id [] = none
port_flow_locate_tunnel_id id (t ∷ ts) =
    let rest = port_flow_locate_tunnel_id id ts in if t.id == id then some t else rest

-- The first tunnel of that number is unlinked.
unfoldable pub port_flow_tunnel_destroy : ℕ → List Tunnel → List Tunnel
port_flow_tunnel_destroy id [] = []
port_flow_tunnel_destroy id (t ∷ ts) =
    let rest = port_flow_tunnel_destroy id ts in if t.id == id then ts else t ∷ rest

pub tunnel_type : List ℕ → Option TunnelType
tunnel_type text =
    if same text (codes "vxlan")
    then some vxlan
    else if same text (codes "gre")
    then some gre
    else if same text (codes "nvgre")
    then some nvgre
    else if same text (codes "geneve")
    then some geneve
    else none

pub has_type : TunnelType → List Tunnel → Bool
has_type type [] = false
has_type type (t ∷ ts) = let rest = has_type type ts in if same_type t.type type then true else rest

-- The number behind that of the first tunnel, or 1.
pub next_tunnel_id : List Tunnel → ℕ
next_tunnel_id [] = 1
next_tunnel_id (t ∷ ts) = u32 (t.id + 1)

-- The list afterwards; `memory` is whether `calloc` finds room.
pub create_typed : Bool → Option TunnelType → List Tunnel → List Tunnel
unfolding has_type next_tunnel_id
create_typed memory none list = list
create_typed memory (some type) list =
    if has_type type list
    then list
    else (if memory then record { id = next_tunnel_id list; type = type } ∷ list else list)

unfoldable pub port_flow_tunnel_create : Bool → List ℕ → List Tunnel → List Tunnel
unfolding tunnel_type create_typed
port_flow_tunnel_create memory text list = create_typed memory (tunnel_type text) list
