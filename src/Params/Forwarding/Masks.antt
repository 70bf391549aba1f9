-- ===== src/Params/Forwarding/Masks.antt =====
-- What the masks of lib/core/dpdk/parameters.c select.
use udx_fastpath.Base.{
  ℕ, ◌+◌, ◌*◌, ◌^◌, ◌≤◌, ◌<◌, ◌≡◌, ◌≢◌, refl, true, false, ◌&&◌, none, List, [], ◌∷◌, ltb, ◌==◌,
  length, take, arith,
}
use udx_fastpath.Fwd.Types.{State}
use udx_fastpath.Select.Platform.{Platform, contains, test_bit}
use udx_fastpath.Select.Cores.{mask_lcores}
use udx_fastpath.Select.Cores.Chosen.{all_usable, set_fwd_lcores_mask-chooses}
use udx_fastpath.Select.Strtol.{is_space, skip_space}
use udx_fastpath.Params.Text.{
  digit_value, read_base, hex_prefix, with_prefix, based, unsigned_number, unsigned_signed, strtoul,
}
use udx_fastpath.Params.Outcome.{next}
use udx_fastpath.Params.Forwarding.{mask_ok, after_coremask, parse_fwd_coremask}

abbrev pub AllHex : List ℕ → Type 0
AllHex [] = Unit
AllHex (c ∷ cs) = (ltb (digit_value c) 16 ≡ true) × AllHex cs

-- The number that hexadecimal digits stand for, after `n`.
abbrev pub hex_from : ℕ → List ℕ → ℕ
hex_from n [] = n
hex_from n (c ∷ cs) = hex_from (n * 16 + digit_value c) cs

read_base-hex : (n : ℕ) (ds : List ℕ) → AllHex ds → read_base 16 n ds ≡ (hex_from n ds, [])
unfolding read_base
read_base-hex n [] a = refl
read_base-hex n (d ∷ ds) a = rw (a.0) (read_base-hex (n * 16 + digit_value d) ds a.1)

hex_prefix-hex : (ds : List ℕ) → AllHex ds → hex_prefix ds ≡ none
unfolding hex_prefix
hex_prefix-hex [] a = refl
hex_prefix-hex (d ∷ []) a = refl
hex_prefix-hex (d ∷ e ∷ []) a = refl
hex_prefix-hex (d ∷ e ∷ f ∷ ds) a = ground (arith, a.1.0)

unsigned_number-hex :
    (start : List ℕ) (d : ℕ) (ds : List ℕ)
    → AllHex (d ∷ ds)
    → hex_from 0 (d ∷ ds) < 2 ^ 64
    → unsigned_number start false (16, d ∷ ds)
      ≡ record { value = hex_from 0 (d ∷ ds); erange = false; end = [] }
unfolding unsigned_number
unsigned_number-hex start d ds a h = ground (arith, read_base-hex 0 (d ∷ ds) a, a.0, h)

not_sign :
    (d : ℕ)
    → ltb (digit_value d) 16 ≡ true
    → (is_space d ≡ false) × ((d == b'-') ≡ false) × ((d == b'+') ≡ false)
not_sign d h = ground (arith, h)

pub strtoul-hex :
    (d : ℕ) (ds : List ℕ)
    → AllHex (d ∷ ds)
    → hex_from 0 (d ∷ ds) < 2 ^ 64
    → strtoul 16 (d ∷ ds) ≡ record { value = hex_from 0 (d ∷ ds); erange = false; end = [] }
unfolding strtoul unsigned_signed based with_prefix skip_space
strtoul-hex d ds a h =
    let (space, minus, plus) = not_sign d a.0 in
    rw (space, minus, plus, hex_prefix-hex (d ∷ ds) a) (unsigned_number-hex (d ∷ ds) d ds a h)

-- A hexadecimal text of a nonzero number below 2^64 whose cores are usable, with an array of at
-- least 64 entries, is accepted, and exactly the cores whose bit is set forward.
pub parse_fwd_coremask-chooses :
    (p : Platform) (d : ℕ) (ds : List ℕ) (s : State)
    → AllHex (d ∷ ds)
    → hex_from 0 (d ∷ ds) < 2 ^ 64
    → hex_from 0 (d ∷ ds) ≢ 0
    → 64 ≤ length s.fwd_lcores_cpuids
    → all_usable p (mask_lcores (hex_from 0 (d ∷ ds)) 64 0) ≡ true
    → (t : State) × (parse_fwd_coremask p (d ∷ ds) s ≡ next t)
      × (t.nb_fwd_lcores ≡ t.nb_cfg_lcores)
      × ((c : ℕ)
          → contains (take t.nb_fwd_lcores t.fwd_lcores_cpuids) c
            ≡ (ltb c 64 && test_bit (hex_from 0 (d ∷ ds)) c))
unfolding parse_fwd_coremask mask_ok after_coremask
parse_fwd_coremask-chooses p d ds s a h nz room usable =
    let (t, e, all, bits) = set_fwd_lcores_mask-chooses p (hex_from 0 (d ∷ ds)) s nz room usable in
    (t, rw (strtoul-hex d ds a h) (rw e refl), all, bits)
