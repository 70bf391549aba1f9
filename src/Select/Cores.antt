-- ===== src/Select/Cores.antt =====
-- config.c, `set_fwd_lcores_list`, `set_fwd_lcores_mask`, `set_fwd_lcores_number`. A result of -1
-- is `false`; `none` is a write past the end of `fwd_lcores_cpuids`.
pub mod Chosen
pub mod Kept
use udx_fastpath.Base.{
  ℕ, zero, suc, Bool, true, false, not, Option, none, some, ◌>>=◌, List, [], ◌∷◌, ltb, ◌==◌,
  if◌then◌else◌, store, length, u8,
}
use udx_fastpath.Fwd.Types.{State}
use udx_fastpath.Select.Platform.{Platform, test_bit}

-- One pass over the cores, from position `i` on: the checks, and with `record_now` the writes.
pub lcores_pass : Platform → Bool → ℕ → List ℕ → List ℕ → Option (List ℕ × Bool)
lcores_pass p record_now i [] cpuids = some (cpuids, true)
lcores_pass p record_now i (lcore ∷ lcores) cpuids =
    let rest =
      (if record_now then store cpuids i lcore else some cpuids)
      >>= (λ next. lcores_pass p record_now (suc i) lcores next) in
    if not (p.lcore_is_enabled lcore)
    then some (cpuids, false)
    else (if lcore == p.main_lcore then some (cpuids, false) else rest)

-- `goto again` is the second pass.
pub set_fwd_lcores_list : Platform → List ℕ → State → Option (State × Bool)
set_fwd_lcores_list p lcores s = do
  checked ← lcores_pass p false 0 lcores s.fwd_lcores_cpuids
  let nb = u8 (length lcores)
  let again = lcores_pass p true 0 lcores checked.0
  if not checked.1
      then some (s, false)
      else (again >>= λ written.
          let t = record s { fwd_lcores_cpuids = written.0 } in
          let u = record t { nb_cfg_lcores = nb } in
          if not written.1
          then some (t, false)
          else some (if s.nb_fwd_lcores == nb then u else record u { nb_fwd_lcores = nb }, true))

-- The loop over the 64 bits, from bit `i` on.
unfoldable pub mask_lcores : ℕ → ℕ → ℕ → List ℕ
mask_lcores mask zero i = []
mask_lcores mask (suc n) i =
    let rest = mask_lcores mask n (suc i) in if not (test_bit mask i) then rest else i ∷ rest

pub set_fwd_lcores_mask : Platform → ℕ → State → Option (State × Bool)
set_fwd_lcores_mask p lcoremask s =
    if lcoremask == 0 then some (s, false) else set_fwd_lcores_list p (mask_lcores lcoremask 64 0) s

pub set_fwd_lcores_number : ℕ → State → State
set_fwd_lcores_number nb_lc s =
    if ltb s.nb_cfg_lcores nb_lc then s else record s { nb_fwd_lcores = u8 nb_lc }
