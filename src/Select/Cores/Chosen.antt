-- ===== src/Select/Cores/Chosen.antt =====
-- Which cores forward after `set_fwd_lcores_list` and `set_fwd_lcores_mask`.
use udx_fastpath.Base.{
  ℕ, zero, suc, ◌+◌, ◌≤◌, ◌≡◌, ◌≢◌, refl, Bool, true, false, not, ◌&&◌, some, List, [], ◌∷◌, arith,
  ltb, leb, ◌==◌, if◌then◌else◌, length, take, set, overwrite, take-overwrite, u8,
}
use mathlib.Core.Option
use udx_fastpath.Fwd.Types.{State}
use udx_fastpath.Select.Platform.{Platform, test_bit, contains}
use udx_fastpath.Select.Cores.{
  lcores_pass, set_fwd_lcores_list, mask_lcores, set_fwd_lcores_mask, set_fwd_lcores_number,
}

-- Every core is enabled and none is the main core.
abbrev pub all_usable : Platform → List ℕ → Bool
all_usable p [] = true
all_usable p (c ∷ cs) = p.lcore_is_enabled c && (not (c == p.main_lcore) && all_usable p cs)

lcores_pass-check :
    (p : Platform) (i : ℕ) (cs a : List ℕ) → lcores_pass p false i cs a ≡ some (a, all_usable p cs)
unfolding lcores_pass
lcores_pass-check p i [] a = refl
lcores_pass-check p i (c ∷ cs) a = ground (arith, lcores_pass-check p (suc i) cs a)

lcores_pass-cons :
    (p : Platform) (i : ℕ) (cs : List ℕ) (x : ℕ) (a : List ℕ)
    → lcores_pass p true (suc i) cs (x ∷ a)
      ≡ Option.map (λ r. (x ∷ r.0, r.1)) (lcores_pass p true i cs a)
unfolding lcores_pass
lcores_pass-cons p i [] x a = refl
lcores_pass-cons p i (c ∷ cs) x a = ground (arith, lcores_pass-cons p (suc i) cs x (set a i c))

lcores_pass-write :
    (p : Platform) (cs a : List ℕ)
    → length cs ≤ length a
    → all_usable p cs ≡ true
    → lcores_pass p true 0 cs a ≡ some (overwrite a cs, true)
unfolding lcores_pass
lcores_pass-write p [] [] h u = refl
lcores_pass-write p [] (x ∷ a) h u = refl
lcores_pass-write p (c ∷ cs) [] h u = absurd (omega arith)
lcores_pass-write p (c ∷ cs) (x ∷ a) h u =
    ground (arith, lcores_pass-cons p 0 cs c a, lcores_pass-write p cs a)

-- The state with these forwarding cores.
abbrev pub with_lcores : List ℕ → State → State
with_lcores cs s = record s {
  fwd_lcores_cpuids = overwrite s.fwd_lcores_cpuids cs;
  nb_cfg_lcores = u8 (length cs);
  nb_fwd_lcores = u8 (length cs);
}

-- If the array has room for the list: where each core is enabled and none is the main core, the
-- list becomes that of the configured and of the forwarding cores; otherwise the result is -1 and
-- nothing changes.
pub set_fwd_lcores_list_lem :
    (p : Platform) (cs : List ℕ) (s : State)
    → length cs ≤ length s.fwd_lcores_cpuids
    → set_fwd_lcores_list p cs s
      ≡ (if all_usable p cs then some (with_lcores cs s, true) else some (s, false))
unfolding set_fwd_lcores_list
set_fwd_lcores_list_lem p cs s h = ground (
  arith,
  lcores_pass-check p 0 cs s.fwd_lcores_cpuids,
  lcores_pass-write p cs s.fwd_lcores_cpuids,
)

length-mask_lcores : (mask n i : ℕ) → length (mask_lcores mask n i) ≤ n
unfolding mask_lcores
length-mask_lcores mask zero i = omega arith
length-mask_lcores mask (suc n) i = ground (arith, length-mask_lcores mask n (suc i))

contains-mask_lcores :
    (mask n i c : ℕ)
    → contains (mask_lcores mask n i) c ≡ (leb i c && (ltb c (i + n) && test_bit mask c))
unfolding mask_lcores contains
contains-mask_lcores mask zero i c = ground arith
contains-mask_lcores mask (suc n) i c = ground (arith, contains-mask_lcores mask n (suc i) c)

-- With a nonzero mask of usable cores and an array of at least 64 entries, exactly the cores whose
-- bit is set forward.
pub set_fwd_lcores_mask-chooses :
    (p : Platform) (lcoremask : ℕ) (s : State)
    → lcoremask ≢ 0
    → 64 ≤ length s.fwd_lcores_cpuids
    → all_usable p (mask_lcores lcoremask 64 0) ≡ true
    → (t : State) × (set_fwd_lcores_mask p lcoremask s ≡ some (t, true))
      × (t.nb_fwd_lcores ≡ t.nb_cfg_lcores)
      × ((c : ℕ)
          → contains (take t.nb_fwd_lcores t.fwd_lcores_cpuids) c
            ≡ (ltb c 64 && test_bit lcoremask c))
unfolding set_fwd_lcores_mask
set_fwd_lcores_mask-chooses p lcoremask s nonzero room usable =
    let cores = mask_lcores lcoremask 64 0 in
    let few = length-mask_lcores lcoremask 64 0 in
    let nb : u8 (length cores) ≡ length cores = omega arith in
    (
      with_lcores cores s,
      ground (arith, set_fwd_lcores_list_lem p cores s),
      refl,
      λ c.
          rw (nb, take-overwrite s.fwd_lcores_cpuids cores (omega arith))
            (ground (arith, contains-mask_lcores lcoremask 64 0 c)),
    )

-- The order that the configuration keeps between its counts of cores.
abbrev pub CoresOrdered : State → Type 0
CoresOrdered s = s.nb_fwd_lcores ≤ s.nb_cfg_lcores

-- If no more cores forward than are configured, no choice of a list or of a number of cores,
-- accepted or not, changes that.
pub set_fwd_lcores-CoresOrdered :
    (p : Platform) (cs : List ℕ) (nb_lc : ℕ) (s : State)
    → CoresOrdered s
    → CoresOrdered (set_fwd_lcores_number nb_lc s)
      × ((t : State) (b : Bool) → set_fwd_lcores_list p cs s ≡ some (t, b) → CoresOrdered t)
unfolding set_fwd_lcores_number set_fwd_lcores_list
set_fwd_lcores-CoresOrdered p cs nb_lc s h = (ground arith, λ t b e. ground arith)
