-- ===== src/Params/Launch/Modes/Stored.antt =====
-- lib/core/dpdk/parameters.c, `launch_args_parse`: the offloads of the port modes at the end.
use udx_fastpath.Base.{
  ℕ, ◌≡◌, refl, ap, ◌∙◌, ◌<◌, ◌^◌, arith, Bool, ◌||◌, List, [], ◌∷◌, ◌++◌, u32, on_if,
}
use Prim.{Unit, tt}
use udx_fastpath.Params.Text.{Word, nonneg, strtoul}
use udx_fastpath.Params.Outcome.{
  next, OnNext, OnNext-put, OnNext-and_then, OnNext-always, OnNext-eq, OnNext-accept, OnNext-map,
}
use udx_fastpath.Params.Options.{mask, rx_offloads, Found, long}
use udx_fastpath.Params.Forwarding.Masks.{AllHex, hex_from, strtoul-hex}
use udx_fastpath.Params.Offloads.{Offloads, mask_option}
use udx_fastpath.Params.Launch.{
  Settings, LaunchEnv, no_queue, early, late, checked, long_option, option, options, finish,
  with_modes, launch_args_parse, proc_id_too_large,
}
use udx_fastpath.Params.Launch.Modes.{NoOffloads, options-kept}

-- The end of the function stores the masks.
finish-modes :
    (rest : Bool) (s : Settings)
    → OnNext
        (λ t.
          (t.rx_mode_offloads ≡ s.offloads.rx_offloads)
          × (t.tx_mode_offloads ≡ s.offloads.tx_offloads))
        (finish rest s)
unfolding finish
finish-modes rest s =
    on_if
      (OnNext (λ t.
        (t.rx_mode_offloads ≡ s.offloads.rx_offloads)
        × (t.tx_mode_offloads ≡ s.offloads.tx_offloads)))
      (rest || proc_id_too_large s.switches) tt (refl, refl)

launch_args_parse-unset :
    (env : LaunchEnv) (found : List Found) (rest : Bool) (s t : Settings)
    → NoOffloads found
    → launch_args_parse env found rest s ≡ next t
    → (t.rx_mode_offloads ≡ s.rx_mode_offloads) × (t.tx_mode_offloads ≡ s.tx_mode_offloads)
unfolding launch_args_parse
launch_args_parse-unset env found rest s t n e =
    let P : Offloads → Type 0 =
      λ x. (x.rx_offloads ≡ s.rx_mode_offloads) × (x.tx_offloads ≡ s.tx_mode_offloads) in
    let Q : Settings → Type 0 =
      λ x. (x.rx_mode_offloads ≡ s.rx_mode_offloads) × (x.tx_mode_offloads ≡ s.tx_mode_offloads) in
    OnNext-eq Q e (
      OnNext-and_then (λ x. P x.offloads) Q (options env found (with_modes s)) (finish rest)
        (λ x. x)
        (λ x k.
          OnNext-map _ Q (finish rest x) (λ y h. (h.0 ∙ k.0, h.1 ∙ k.1)) (finish-modes rest x))
        (options-kept P env found (with_modes s) n (refl, refl)))

mask_word : (v n : ℕ) → v ≡ n → n < 2 ^ 31 → u32 v ≡ n
mask_word v n e h = omega (arith, e, h)

-- What the last mask sets.
mask-sets :
    (env : LaunchEnv) (d : ℕ) (ds : List ℕ) (s : Settings)
    → AllHex (d ∷ ds)
    → hex_from 0 (d ∷ ds) < 2 ^ 31
    → OnNext
        (λ t. t.offloads.rx_offloads ≡ hex_from 0 (d ∷ ds))
        (option env (long (mask (rx_offloads (d ∷ ds)))) s)
unfolding option long_option early checked late mask_option
mask-sets env d ds s a small =
    let value : (strtoul 16 (d ∷ ds)).value ≡ hex_from 0 (d ∷ ds) =
      ap (λ (w : Word). w.value) (strtoul-hex d ds a (omega (arith, small))) in
    on_if (OnNext (λ t. t.offloads.rx_offloads ≡ hex_from 0 (d ∷ ds))) (no_queue s.forwarding) tt (
      OnNext-put (λ (t : Settings). t.offloads.rx_offloads ≡ hex_from 0 (d ∷ ds))
        (λ x. record s { offloads = x }) (mask_option (rx_offloads (d ∷ ds)) s.offloads)
        (OnNext-accept (λ (t : Offloads). t.rx_offloads ≡ hex_from 0 (d ∷ ds))
          (nonneg (u32 (strtoul 16 (d ∷ ds)).value)) _
          (λ ok. mask_word (strtoul 16 (d ∷ ds)).value (hex_from 0 (d ∷ ds)) value small)))

options-last :
    (env : LaunchEnv) (before : List Found) (d : ℕ) (ds : List ℕ) (behind : List Found)
    (s : Settings)
    → AllHex (d ∷ ds)
    → hex_from 0 (d ∷ ds) < 2 ^ 31
    → NoOffloads behind
    → OnNext
        (λ t. t.offloads.rx_offloads ≡ hex_from 0 (d ∷ ds))
        (options env (before ++ (long (mask (rx_offloads (d ∷ ds))) ∷ behind)) s)
unfolding options
options-last env [] d ds behind s a small n =
    let P : Offloads → Type 0 = λ x. x.rx_offloads ≡ hex_from 0 (d ∷ ds) in
    OnNext-and_then (λ t. P t.offloads) (λ t. P t.offloads)
      (option env (long (mask (rx_offloads (d ∷ ds)))) s) (options env behind) (λ t. t)
      (λ t k. options-kept P env behind t n k) (mask-sets env d ds s a small)
options-last env (x ∷ before) d ds behind s a small n =
    OnNext-and_then (λ _. Unit) (λ t. t.offloads.rx_offloads ≡ hex_from 0 (d ∷ ds)) (option env x s)
      (options env (before ++ (long (mask (rx_offloads (d ∷ ds))) ∷ behind))) (λ t. t)
      (λ t _. options-last env before d ds behind t a small n)
      (OnNext-always (λ _. Unit) (option env x s) (λ _. tt))

launch_args_parse-last_mask :
    (env : LaunchEnv) (before : List Found) (d : ℕ) (ds : List ℕ) (behind : List Found)
    (rest : Bool) (s t : Settings)
    → AllHex (d ∷ ds)
    → hex_from 0 (d ∷ ds) < 2 ^ 31
    → NoOffloads behind
    → launch_args_parse env (before ++ (long (mask (rx_offloads (d ∷ ds))) ∷ behind)) rest s
      ≡ next t
    → t.rx_mode_offloads ≡ hex_from 0 (d ∷ ds)
unfolding launch_args_parse
launch_args_parse-last_mask env before d ds behind rest s t a small n e =
    let os = before ++ (long (mask (rx_offloads (d ∷ ds))) ∷ behind) in
    let Q : Settings → Type 0 = λ x. x.rx_mode_offloads ≡ hex_from 0 (d ∷ ds) in
    OnNext-eq Q e (
      OnNext-and_then (λ x. x.offloads.rx_offloads ≡ hex_from 0 (d ∷ ds)) Q
        (options env os (with_modes s)) (finish rest) (λ x. x)
        (λ x k. OnNext-map _ Q (finish rest x) (λ y h. h.0 ∙ k) (finish-modes rest x))
        (options-last env before d ds behind (with_modes s) a small n))

-- Where the last options of a command line that is parsed to its end set no offloads: if these are
-- all its options, the offload masks of the port modes are as before; if they stand behind a --rx-
-- offloads with hexadecimal digits of a number below 2^31, whatever comes before that, the receive
-- mask of the port modes is the number.
pub launch_args_parse-modes :
    (env : LaunchEnv) (before found : List Found) (rest : Bool) (s t : Settings)
    → NoOffloads found
    → (launch_args_parse env found rest s ≡ next t
        → (t.rx_mode_offloads ≡ s.rx_mode_offloads) × (t.tx_mode_offloads ≡ s.tx_mode_offloads))
      × ((d : ℕ) (ds : List ℕ)
          → AllHex (d ∷ ds)
          → hex_from 0 (d ∷ ds) < 2 ^ 31
          → launch_args_parse env (before ++ (long (mask (rx_offloads (d ∷ ds))) ∷ found)) rest s
            ≡ next t
          → t.rx_mode_offloads ≡ hex_from 0 (d ∷ ds))
launch_args_parse-modes env before found rest s t n = (
  launch_args_parse-unset env found rest s t n,
  λ d ds a small e. launch_args_parse-last_mask env before d ds found rest s t a small n e,
)
