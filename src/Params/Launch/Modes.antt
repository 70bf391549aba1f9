-- ===== src/Params/Launch/Modes.antt =====
-- lib/core/dpdk/parameters.c, `launch_args_parse`: the offloads of the port modes, and the options that
-- leave them as they are.
pub mod Stored
use udx_fastpath.Base.{
  ℕ, ◌≡◌, refl, ap, ◌∙◌, ◌<◌, ◌^◌, arith, Bool, true, false, ◌||◌, List, [], ◌∷◌, ◌++◌, u32, on_if,
  if◌then◌else◌,
}
use Prim.{Unit, tt}
use udx_fastpath.Params.Text.{Word, nonneg, strtoul}
use udx_fastpath.Params.Outcome.{
  Outcome, next, and_then, put, accept, OnNext, OnNext-put, OnNext-and_then, OnNext-always,
  OnNext-eq, OnNext-accept, OnNext-map,
}
use udx_fastpath.Params.Options.{
  LongOption, help, ignored, stats_period, start, forward, memory, offload, queue, ring, segment,
  switch, mask, noisy, MaskOption, tx_offloads, rx_offloads, Found, short_i, short_a, short_h,
  unknown, long,
}
use udx_fastpath.Params.Start.{start_option}
use udx_fastpath.Params.Forwarding.{forward_option, queue_option}
use udx_fastpath.Params.Forwarding.Masks.{AllHex, hex_from, strtoul-hex}
use udx_fastpath.Params.Memory.{memory_option}
use udx_fastpath.Params.Offloads.{Offloads, mask_option}
use udx_fastpath.Params.Rings.{ring_option}
use udx_fastpath.Params.Segments.{segment_option}
use udx_fastpath.Params.Switches.{switch_option}
use udx_fastpath.Params.Noisy.{noisy_option}
use udx_fastpath.Params.Launch.{
  Settings, LaunchEnv, no_queue, segs_of, early, late, checked, long_option, option, options,
  finish, with_modes, launch_args_parse, proc_id_too_large,
}

-- The options that set no offloads.
abbrev pub sets_offloads : Found → Bool
sets_offloads (long (offload o)) = true
sets_offloads (long (mask o)) = true
sets_offloads _ = false

abbrev pub NoOffloads : List Found → Type 0
NoOffloads [] = Unit
NoOffloads (o ∷ os) = (sets_offloads o ≡ false) × NoOffloads os

module _ (P : Offloads → Type 0) where
  -- A step that writes other settings keeps `P`.
  put-kept {ℓ} :
      {A : Type ℓ} (g : A → Settings) (o : Outcome A)
      → ((a : A) → P (g a).offloads)
      → OnNext (λ t. P t.offloads) (put g o)
  put-kept g o h = OnNext-put (λ t. P t.offloads) g o (OnNext-always (λ a. P (g a).offloads) o h)

  early-kept :
      (env : LaunchEnv) (o : LongOption) (s : Settings)
      → sets_offloads (long o) ≡ false
      → P s.offloads
      → OnNext (λ t. P t.offloads) (early env o s)
  unfolding early
  early-kept env (start o) s n h =
      put-kept (λ x. record s { starting = x }) (start_option env.start_env o s.starting) (λ _. h)
  early-kept env (forward o) s n h =
      put-kept (λ x. record s { forwarding = x }) (forward_option env.forward_env o s.forwarding)
        (λ _. h)
  early-kept env (memory o) s n h =
      put-kept (λ x. record s { pools = x }) (memory_option o s.pools) (λ _. h)
  early-kept env (queue o) s n h =
      put-kept (λ x. record s { forwarding = x })
        (queue_option env.forward_env.devices o s.forwarding) (λ _. h)
  early-kept env (offload o) s n h = absurd (cc)
  early-kept env help s n h = h
  early-kept env ignored s n h = h
  early-kept env (stats_period a) s n h = h
  early-kept env (ring o) s n h = h
  early-kept env (segment o) s n h = h
  early-kept env (switch o) s n h = h
  early-kept env (mask o) s n h = absurd (cc)
  early-kept env (noisy o) s n h = h

  late-kept :
      (env : LaunchEnv) (o : LongOption) (s : Settings)
      → sets_offloads (long o) ≡ false
      → P s.offloads
      → OnNext (λ t. P t.offloads) (late env o s)
  unfolding late
  late-kept env (ring o) s n h =
      put-kept (λ x. record s { rings = x }) (ring_option env.forward_env.devices o s.rings)
        (λ _. h)
  late-kept env (segment o) s n h =
      put-kept (λ x. record s { segs = x }) (segment_option env.segment_env o (segs_of s)) (λ _. h)
  late-kept env (switch o) s n h =
      put-kept (λ x. record s { switches = x }) (switch_option env.switch_env o s.switches) (λ _. h)
  late-kept env (noisy o) s n h =
      put-kept (λ x. record s { noise = x }) (noisy_option o s.noise) (λ _. h)
  late-kept env (mask o) s n h = absurd (cc)
  late-kept env (offload o) s n h = absurd (cc)
  late-kept env help s n h = h
  late-kept env ignored s n h = h
  late-kept env (stats_period a) s n h = h
  late-kept env (start o) s n h = h
  late-kept env (forward o) s n h = h
  late-kept env (memory o) s n h = h
  late-kept env (queue o) s n h = h

  steps-kept :
      (env : LaunchEnv) (o : LongOption) (s : Settings)
      → sets_offloads (long o) ≡ false
      → P s.offloads
      → OnNext (λ t. P t.offloads) (and_then (early env o s) (checked env o) (λ t. t))
  unfolding checked
  steps-kept env o s n h =
      OnNext-and_then (λ t. P t.offloads) (λ t. P t.offloads) (early env o s) (checked env o)
        (λ t. t)
        (λ t k.
          on_if (OnNext (λ x. P x.offloads)) (no_queue t.forwarding) tt (late-kept env o t n k))
        (early-kept env o s n h)

  option-kept :
      (env : LaunchEnv) (o : Found) (s : Settings)
      → sets_offloads o ≡ false
      → P s.offloads
      → OnNext (λ t. P t.offloads) (option env o s)
  unfolding option long_option
  option-kept env short_i s n h = h
  option-kept env short_a s n h = h
  option-kept env short_h s n h = tt
  option-kept env unknown s n h = tt
  option-kept env (long help) s n h = tt
  option-kept env (long (stats_period a)) s n h = h
  option-kept env (long ignored) s n h = steps-kept env ignored s n h
  option-kept env (long (start o)) s n h = steps-kept env (start o) s n h
  option-kept env (long (forward o)) s n h = steps-kept env (forward o) s n h
  option-kept env (long (memory o)) s n h = steps-kept env (memory o) s n h
  option-kept env (long (offload o)) s n h = absurd (cc)
  option-kept env (long (queue o)) s n h = steps-kept env (queue o) s n h
  option-kept env (long (ring o)) s n h = steps-kept env (ring o) s n h
  option-kept env (long (segment o)) s n h = steps-kept env (segment o) s n h
  option-kept env (long (switch o)) s n h = steps-kept env (switch o) s n h
  option-kept env (long (mask o)) s n h = absurd (cc)
  option-kept env (long (noisy o)) s n h = steps-kept env (noisy o) s n h

  pub options-kept :
      (env : LaunchEnv) (found : List Found) (s : Settings)
      → NoOffloads found
      → P s.offloads
      → OnNext (λ t. P t.offloads) (options env found s)
  unfolding options
  options-kept env [] s n h = h
  options-kept env (o ∷ os) s n h =
      OnNext-and_then (λ t. P t.offloads) (λ t. P t.offloads) (option env o s) (options env os)
        (λ t. t) (λ t k. options-kept env os t n.1 k) (option-kept env o s n.0 h)
