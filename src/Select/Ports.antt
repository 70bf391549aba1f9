-- ===== src/Select/Ports.antt =====
-- config.c, `set_fwd_ports_list`, `set_fwd_ports_mask`, `set_fwd_ports_number`,
-- and `port_is_forwarding`. `none` is a write past the end of an array.
pub mod Chosen
pub mod Kept
use udx_fastpath.Base.{
  ℕ, zero, suc, Bool, true, false, not, Option, none, some, ◌>>=◌, List, [], ◌∷◌, ltb, ◌==◌,
  if◌then◌else◌, store, length, take, u16,
}
use udx_fastpath.Fwd.Types.{State}
use udx_fastpath.Select.Platform.{Platform, test_bit, contains, port_id_is_invalid}

-- One pass over the ports, from position `i` on: the checks, and with `record_now` the writes.
pub ports_pass : Platform → Bool → ℕ → List ℕ → List ℕ → Option (List ℕ × Bool)
ports_pass p record_now i [] ids = some (ids, true)
ports_pass p record_now i (port ∷ ports) ids =
    let port_id = u16 port in
    let rest =
      (if record_now then store ids i port_id else some ids)
      >>= (λ next. ports_pass p record_now (suc i) ports next) in
    if port_id_is_invalid p port_id then some (ids, false) else rest

-- `goto again` is the second pass.
pub set_fwd_ports_list : Platform → List ℕ → State → Option State
set_fwd_ports_list p ports s = do
  checked ← ports_pass p false 0 ports s.fwd_ports_ids
  let nb = u16 (length ports)
  let again = ports_pass p true 0 ports checked.0
  if not checked.1
      then some s
      else (again >>= λ written.
          let t = record s { fwd_ports_ids = written.0 } in
          let u = record t { nb_cfg_ports = nb } in
          if not written.1
          then some t
          else some (if s.nb_fwd_ports == nb then u else record u { nb_fwd_ports = nb }))

-- The loop of `set_fwd_ports_mask` over the probed ports. A shift by 64 or more has no meaning in
-- C: it is a fault.
pub mask_ports : ℕ → List ℕ → Option (List ℕ)
mask_ports mask [] = some []
mask_ports mask (i ∷ devs) =
    let rest = mask_ports mask devs in
    if ltb i 64
    then (rest >>= λ ports. if not (test_bit mask i) then some ports else some (i ∷ ports))
    else none

pub set_fwd_ports_mask : Platform → ℕ → State → Option State
set_fwd_ports_mask p portmask s =
    if portmask == 0
    then some s
    else (mask_ports portmask p.devs >>= λ ports. set_fwd_ports_list p ports s)

pub set_fwd_ports_number : ℕ → State → State
set_fwd_ports_number nb_pt s =
    if ltb s.nb_cfg_ports nb_pt then s else record s { nb_fwd_ports = nb_pt }

-- `none` is the result -1.
unfoldable pub port_is_forwarding : Platform → State → ℕ → Option Bool
unfolding contains
port_is_forwarding p s port_id =
    if port_id_is_invalid p port_id
    then none
    else some (contains (take s.nb_fwd_ports s.fwd_ports_ids) port_id)
