-- ===== src/Fwd/Lcores.antt =====
-- config.c, `setup_fwd_config_of_each_lcore`: how streams are dealt out to cores.
pub mod Tiling
use udx_fastpath.Base.{
  ℕ, zero, suc, ◌+◌, ◌-◌, ◌/◌, ◌%◌, Option, none, some, List, ◌>>=◌, get_elem?, set, leb, ◌==◌,
  if◌then◌else◌, u8, u16,
}
use udx_fastpath.Fwd.Types.{Lcore, Config}

-- Both loops of the function: `count` cores from `lc_id` on get `nb` streams each, from `sm_id` on.
-- The result has the stream that comes next.
unfoldable pub assign_streams : ℕ → ℕ → ℕ → ℕ → List Lcore → Option (List Lcore × ℕ)
assign_streams zero lc_id nb sm_id lcores = some (lcores, sm_id)
assign_streams (suc count) lc_id nb sm_id lcores = do
  lc ← get_elem? lcores lc_id
  assign_streams count (suc lc_id) nb (u16 (sm_id + nb))
      (set lcores lc_id (record lc { stream_idx = sm_id; stream_nb = nb }))

-- The part below the choice of `nb_fs_per_lcore` and `nb_extra`.
unfoldable pub share_out : ℕ → ℕ → ℕ → List Lcore → Option (List Lcore)
share_out nb_fc nb_fs_per_lcore nb_extra lcores = do
  let nb_lc = u8 (nb_fc + 256 - nb_extra)
  r ← assign_streams nb_lc 0 nb_fs_per_lcore 0 lcores
  s ← assign_streams nb_extra nb_lc (u16 (nb_fs_per_lcore + 1)) r.1 r.0
  some s.0

-- A division by 0 is a fault.
unfoldable pub setup_fwd_config_of_each_lcore : Config → List Lcore → Option (List Lcore)
setup_fwd_config_of_each_lcore cfg lcores =
    if leb nb_fs nb_fc
    then share_out nb_fc 1 0 lcores
    else (if nb_fc == 0
        then none
        else share_out nb_fc (u16 (nb_fs / nb_fc)) (u8 (nb_fs % nb_fc)) lcores)
  where
    open cfg use {nb_fwd_streams as nb_fs, nb_fwd_lcores as nb_fc}
