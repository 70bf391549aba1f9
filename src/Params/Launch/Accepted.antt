-- ===== src/Params/Launch/Accepted.antt =====
-- What holds of the settings when `launch_args_parse` of lib/core/dpdk/parameters.c has read all
-- options.
use udx_fastpath.Base.{◌≡◌, Bool, true, false, ◌||◌, List, [], ◌∷◌, Bool-cases, inl, inr, on_if}
use udx_fastpath.Params.Outcome.{
  next, and_then, OnNext, OnNext-map, OnNext-put, OnNext-and_then, OnNext-always, OnNext-eq,
}
use udx_fastpath.Params.Options.{
  LongOption, help, ignored, stats_period, start, forward, memory, offload, queue, ring, segment,
  switch, mask, noisy, Found, short_i, short_a, short_h, unknown, long,
}
use udx_fastpath.Params.Forwarding.{Forwarding, forward_option, queue_option}
use udx_fastpath.Params.Start.{start_option}
use udx_fastpath.Params.Memory.{memory_option}
use udx_fastpath.Params.Rings.{ring_option}
use udx_fastpath.Params.Segments.{segment_option}
use udx_fastpath.Params.Switches.{switch_option}
use udx_fastpath.Params.Offloads.{mask_option}
use udx_fastpath.Params.Noisy.{noisy_option}
use udx_fastpath.Params.Launch.{
  Settings, LaunchEnv, no_queue, segs_of, early, late, checked, long_option, option, options,
  finish, with_modes, launch_args_parse, proc_id_too_large,
}
use udx_fastpath.Params.Launch.Queues.{
  IsLimited, Same-IsLimited, forward_option-SameNumbers, queue_option-IsLimited,
}

-- The numbers of queues are within the limits, and are not both 0.
abbrev pub IsQueues : LaunchEnv → Forwarding → Type 0
IsQueues env f = IsLimited env.forward_env.devices f × (no_queue f ≡ false)

early-IsLimited :
    (env : LaunchEnv) (o : LongOption) (s : Settings)
    → IsLimited env.forward_env.devices s.forwarding
    → OnNext (λ t. IsLimited env.forward_env.devices t.forwarding) (early env o s)
unfolding early
early-IsLimited env (start o) s h =
    OnNext-put _ _ (start_option env.start_env o s.starting)
      (OnNext-always _ (start_option env.start_env o s.starting) (λ _. h))
early-IsLimited env (forward o) s h =
    let devices = env.forward_env.devices in
    OnNext-put _ _ (forward_option env.forward_env o s.forwarding) (
      OnNext-map _ (IsLimited devices) (forward_option env.forward_env o s.forwarding)
        (λ t same. Same-IsLimited devices s.forwarding t same h)
        (forward_option-SameNumbers env.forward_env o s.forwarding))
early-IsLimited env (memory o) s h =
    OnNext-put _ _ (memory_option o s.pools) (OnNext-always _ (memory_option o s.pools) (λ _. h))
early-IsLimited env (queue o) s h =
    let devices = env.forward_env.devices in
    OnNext-put _ _ (queue_option devices o s.forwarding)
      (queue_option-IsLimited devices o s.forwarding h)
early-IsLimited env (offload o) s h = h
early-IsLimited env help s h = h
early-IsLimited env ignored s h = h
early-IsLimited env (stats_period a) s h = h
early-IsLimited env (ring o) s h = h
early-IsLimited env (segment o) s h = h
early-IsLimited env (switch o) s h = h
early-IsLimited env (mask o) s h = h
early-IsLimited env (noisy o) s h = h

-- The later tests leave the numbers of queues alone.
late-kept :
    (env : LaunchEnv) (o : LongOption) (s : Settings) (P : Forwarding → Type 0)
    → P s.forwarding
    → OnNext (λ t. P t.forwarding) (late env o s)
unfolding late
late-kept env (ring o) s P h =
    let r = ring_option env.forward_env.devices o s.rings in
    OnNext-put _ _ r (OnNext-always _ r (λ _. h))
late-kept env (segment o) s P h =
    let r = segment_option env.segment_env o (segs_of s) in
    OnNext-put _ _ r (OnNext-always _ r (λ _. h))
late-kept env (switch o) s P h =
    let r = switch_option env.switch_env o s.switches in
    OnNext-put _ _ r (OnNext-always _ r (λ _. h))
late-kept env (mask o) s P h =
    let r = mask_option o s.offloads in OnNext-put _ _ r (OnNext-always _ r (λ _. h))
late-kept env (noisy o) s P h =
    let r = noisy_option o s.noise in OnNext-put _ _ r (OnNext-always _ r (λ _. h))
late-kept env help s P h = h
late-kept env ignored s P h = h
late-kept env (stats_period a) s P h = h
late-kept env (start o) s P h = h
late-kept env (forward o) s P h = h
late-kept env (memory o) s P h = h
late-kept env (offload o) s P h = h
late-kept env (queue o) s P h = h

checked-IsQueues :
    (env : LaunchEnv) (o : LongOption) (s : Settings)
    → IsLimited env.forward_env.devices s.forwarding
    → OnNext (λ t. IsQueues env t.forwarding) (checked env o s)
unfolding checked
checked-IsQueues env o s h = elim (Bool-cases (no_queue s.forwarding)) [
  | inl e ↦ rw e tt
  | inr e ↦ rw e (late-kept env o s (IsQueues env) (h, e))
]

-- An option that is neither `help` nor `stats-period`.
steps-IsQueues :
    (env : LaunchEnv) (o : LongOption) (s : Settings)
    → IsQueues env s.forwarding
    → OnNext (λ t. IsQueues env t.forwarding) (and_then (early env o s) (checked env o) (λ t. t))
steps-IsQueues env o s h =
    OnNext-and_then (λ t. IsLimited env.forward_env.devices t.forwarding) _ (early env o s)
      (checked env o) (λ t. t) (λ t k. checked-IsQueues env o t k) (early-IsLimited env o s h.0)

long_option-IsQueues :
    (env : LaunchEnv) (o : LongOption) (s : Settings)
    → IsQueues env s.forwarding
    → OnNext (λ t. IsQueues env t.forwarding) (long_option env o s)
unfolding long_option
long_option-IsQueues env help s h = tt
long_option-IsQueues env (stats_period a) s h = h
long_option-IsQueues env ignored s h = steps-IsQueues env ignored s h
long_option-IsQueues env (start o) s h = steps-IsQueues env (start o) s h
long_option-IsQueues env (forward o) s h = steps-IsQueues env (forward o) s h
long_option-IsQueues env (memory o) s h = steps-IsQueues env (memory o) s h
long_option-IsQueues env (offload o) s h = steps-IsQueues env (offload o) s h
long_option-IsQueues env (queue o) s h = steps-IsQueues env (queue o) s h
long_option-IsQueues env (ring o) s h = steps-IsQueues env (ring o) s h
long_option-IsQueues env (segment o) s h = steps-IsQueues env (segment o) s h
long_option-IsQueues env (switch o) s h = steps-IsQueues env (switch o) s h
long_option-IsQueues env (mask o) s h = steps-IsQueues env (mask o) s h
long_option-IsQueues env (noisy o) s h = steps-IsQueues env (noisy o) s h

options-IsQueues :
    (env : LaunchEnv) (found : List Found) (s : Settings)
    → IsQueues env s.forwarding
    → OnNext (λ t. IsQueues env t.forwarding) (options env found s)
unfolding options option
options-IsQueues env [] s h = h
options-IsQueues env (short_i ∷ os) s h =
    options-IsQueues env os (record s { starting = record (s.starting) { interactive = true } }) h
options-IsQueues env (short_a ∷ os) s h =
    options-IsQueues env os (record s { starting = record (s.starting) { auto_start = true } }) h
options-IsQueues env (short_h ∷ os) s h = tt
options-IsQueues env (unknown ∷ os) s h = tt
options-IsQueues env (long o ∷ os) s h =
    OnNext-and_then (λ t. IsQueues env t.forwarding) _ (long_option env o s) (options env os)
      (λ t. t) (λ t k. options-IsQueues env os t k) (long_option-IsQueues env o s h)

finish-kept :
    (rest : Bool) (s : Settings) (P : Forwarding → Type 0)
    → P s.forwarding
    → OnNext (λ t. P t.forwarding) (finish rest s)
unfolding finish
finish-kept rest s P h =
    on_if (OnNext (λ t. P t.forwarding)) (rest || proc_id_too_large s.switches) tt h

-- If the numbers of queues are within the limits of the devices and are not both 0, they still are
-- so after any command line that is parsed to its end, in whatever order its options stand.
pub launch_args_parse-IsQueues :
    (env : LaunchEnv) (found : List Found) (rest : Bool) (s t : Settings)
    → IsQueues env s.forwarding
    → launch_args_parse env found rest s ≡ next t
    → IsQueues env t.forwarding
unfolding launch_args_parse
launch_args_parse-IsQueues env found rest s t h e =
    let P : Settings → Type 0 = λ x. IsQueues env x.forwarding in
    OnNext-eq P e (
      OnNext-and_then P P (options env found (with_modes s)) (finish rest) (λ x. x)
        (λ x k. finish-kept rest x (IsQueues env) k) (options-IsQueues env found (with_modes s) h))
