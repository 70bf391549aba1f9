-- ===== src/Params/Noisy.antt =====
-- lib/core/dpdk/parameters.c, `launch_args_parse`: the options of the noisy-neighbour forwarding.
use udx_fastpath.Base.{ℕ, suc, Option, none, some, List, [], ◌∷◌, if◌then◌else◌, u16}
use udx_fastpath.Params.Text.{codes, same, atoi, nonneg}
use udx_fastpath.Params.Outcome.{Outcome, next, exit_failure, accept}
use udx_fastpath.Params.Options.{
  NoisyOption, noisy_tx_sw_buffer_size, noisy_tx_sw_buffer_flushtime, noisy_lkup_memory,
  noisy_lkup_num_writes, noisy_lkup_num_reads, noisy_lkup_num_reads_writes, noisy_forward_mode,
}

pub record Noisy : Type 0 where
  pub noisy_tx_sw_bufsz : ℕ
  pub noisy_tx_sw_buf_flush_time : ℕ
  pub noisy_lkup_mem_sz : ℕ
  pub noisy_lkup_num_writes : ℕ
  pub noisy_lkup_num_reads : ℕ
  pub noisy_lkup_num_reads_writes : ℕ
  pub noisy_fwd_mode : ℕ

abbrev pub noisy_fwd_mode_desc : List (List ℕ)
noisy_fwd_mode_desc = codes "io" ∷ codes "mac" ∷ codes "macswap" ∷ codes "5tswap" ∷ []

-- The position of a name in `noisy_fwd_mode_desc`, from `i` on.
pub find_mode : List (List ℕ) → ℕ → List ℕ → Option ℕ
find_mode [] i name = none
find_mode (m ∷ ms) i name = if same name m then some i else find_mode ms (suc i) name

pub with_mode : Option ℕ → Noisy → Outcome Noisy
with_mode none s = exit_failure
with_mode (some i) s = next (record s { noisy_fwd_mode = i })

unfoldable pub noisy_option : NoisyOption → Noisy → Outcome Noisy
unfolding find_mode with_mode atoi
noisy_option (noisy_tx_sw_buffer_size a) s =
    accept (nonneg (atoi a)) (record s { noisy_tx_sw_bufsz = u16 (atoi a) })
noisy_option (noisy_tx_sw_buffer_flushtime a) s =
    accept (nonneg (atoi a)) (record s { noisy_tx_sw_buf_flush_time = u16 (atoi a) })
noisy_option (noisy_lkup_memory a) s =
    accept (nonneg (atoi a)) (record s { noisy_lkup_mem_sz = atoi a })
noisy_option (noisy_lkup_num_writes a) s =
    accept (nonneg (atoi a)) (record s { noisy_lkup_num_writes = atoi a })
noisy_option (noisy_lkup_num_reads a) s =
    accept (nonneg (atoi a)) (record s { noisy_lkup_num_reads = atoi a })
noisy_option (noisy_lkup_num_reads_writes a) s =
    accept (nonneg (atoi a)) (record s { noisy_lkup_num_reads_writes = atoi a })
noisy_option (noisy_forward_mode a) s = with_mode (find_mode noisy_fwd_mode_desc 0 a) s
