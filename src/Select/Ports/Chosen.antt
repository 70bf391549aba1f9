-- ===== src/Select/Ports/Chosen.antt =====
-- Which ports forward after `set_fwd_ports_list` and `set_fwd_ports_mask`.
use udx_fastpath.Base.{
  ℕ, suc, ◌≤◌, ◌≡◌, ◌≢◌, refl, Bool, true, false, not, ◌&&◌, some, List, [], ◌∷◌, arith,
  if◌then◌else◌, length, take, set, overwrite, take-overwrite, u16, map,
}
use mathlib.Core.Option
use udx_fastpath.Fwd.Types.{State}
use udx_fastpath.Select.Platform.{AllBelow, Platform, test_bit, contains, port_id_is_invalid}
use udx_fastpath.Select.Ports.{
  ports_pass, set_fwd_ports_list, mask_ports, set_fwd_ports_mask, set_fwd_ports_number,
}

-- No port is invalid.
abbrev pub all_valid : Platform → List ℕ → Bool
all_valid p [] = true
all_valid p (x ∷ xs) = not (port_id_is_invalid p (u16 x)) && all_valid p xs

ports_pass-check :
    (p : Platform) (i : ℕ) (xs a : List ℕ) → ports_pass p false i xs a ≡ some (a, all_valid p xs)
unfolding ports_pass
ports_pass-check p i [] a = refl
ports_pass-check p i (x ∷ xs) a = ground (arith, ports_pass-check p (suc i) xs a)

ports_pass-cons :
    (p : Platform) (i : ℕ) (xs : List ℕ) (y : ℕ) (a : List ℕ)
    → ports_pass p true (suc i) xs (y ∷ a)
      ≡ Option.map (λ r. (y ∷ r.0, r.1)) (ports_pass p true i xs a)
unfolding ports_pass
ports_pass-cons p i [] y a = refl
ports_pass-cons p i (x ∷ xs) y a = ground (arith, ports_pass-cons p (suc i) xs y (set a i (u16 x)))

ports_pass-write :
    (p : Platform) (xs a : List ℕ)
    → length xs ≤ length a
    → all_valid p xs ≡ true
    → ports_pass p true 0 xs a ≡ some (overwrite a (map u16 xs), true)
unfolding ports_pass
ports_pass-write p [] [] h u = refl
ports_pass-write p [] (y ∷ a) h u = refl
ports_pass-write p (x ∷ xs) [] h u = absurd (omega arith)
ports_pass-write p (x ∷ xs) (y ∷ a) h u =
    ground (arith, ports_pass-cons p 0 xs (u16 x) a, ports_pass-write p xs a)

-- The state with these forwarding ports.
abbrev pub with_ports : List ℕ → State → State
with_ports xs s = record s {
  fwd_ports_ids = overwrite s.fwd_ports_ids (map u16 xs);
  nb_cfg_ports = u16 (length xs);
  nb_fwd_ports = u16 (length xs);
}

-- If the array has room for the list: where no port is invalid the list becomes that of the
-- configured and of the forwarding ports; otherwise nothing changes.
pub set_fwd_ports_list_lem :
    (p : Platform) (xs : List ℕ) (s : State)
    → length xs ≤ length s.fwd_ports_ids
    → set_fwd_ports_list p xs s ≡ some (if all_valid p xs then with_ports xs s else s)
unfolding set_fwd_ports_list
set_fwd_ports_list_lem p xs s h =
    ground (arith, ports_pass-check p 0 xs s.fwd_ports_ids, ports_pass-write p xs s.fwd_ports_ids)

-- The ports of the list whose bit is set.
abbrev pub chosen_ports : ℕ → List ℕ → List ℕ
chosen_ports mask [] = []
chosen_ports mask (x ∷ xs) =
    let rest = chosen_ports mask xs in if not (test_bit mask x) then rest else x ∷ rest

mask_ports_lem :
    (mask : ℕ) (xs : List ℕ) → AllBelow 64 xs → mask_ports mask xs ≡ some (chosen_ports mask xs)
unfolding mask_ports
mask_ports_lem mask [] h = refl
mask_ports_lem mask (x ∷ xs) h = ground (arith, mask_ports_lem mask xs)

length-chosen_ports : (mask : ℕ) (xs : List ℕ) → length (chosen_ports mask xs) ≤ length xs
length-chosen_ports mask [] = omega arith
length-chosen_ports mask (x ∷ xs) = ground (arith, length-chosen_ports mask xs)

contains-chosen_ports :
    (mask : ℕ) (xs : List ℕ) (c : ℕ)
    → contains (chosen_ports mask xs) c ≡ (contains xs c && test_bit mask c)
unfolding contains
contains-chosen_ports mask [] c = refl
contains-chosen_ports mask (x ∷ xs) c = ground (arith, contains-chosen_ports mask xs c)

map-u16 :
    (mask : ℕ) (xs : List ℕ)
    → AllBelow 64 xs
    → map u16 (chosen_ports mask xs) ≡ chosen_ports mask xs
map-u16 mask [] h = refl
map-u16 mask (x ∷ xs) h = ground (arith, map-u16 mask xs)

all_valid-chosen_ports :
    (p : Platform) (mask : ℕ) (xs : List ℕ)
    → AllBelow 64 xs
    → ((x : ℕ) → contains xs x ≡ true → contains p.devs x ≡ true)
    → all_valid p (chosen_ports mask xs) ≡ true
unfolding contains port_id_is_invalid
all_valid-chosen_ports p mask [] h sub = refl
all_valid-chosen_ports p mask (x ∷ xs) h sub =
    ground (arith, all_valid-chosen_ports p mask xs h.1 (λ y m. sub y (ground arith)), sub x)

-- With a nonzero mask, at most 64 probed ports, all below 64, and an array of at least 64 entries,
-- exactly the probed ports whose bit is set forward.
pub set_fwd_ports_mask-chooses :
    (p : Platform) (portmask : ℕ) (s : State)
    → portmask ≢ 0
    → AllBelow 64 p.devs
    → length p.devs ≤ 64
    → 64 ≤ length s.fwd_ports_ids
    → (t : State) × (set_fwd_ports_mask p portmask s ≡ some t)
      × (t.nb_fwd_ports ≡ t.nb_cfg_ports)
      × ((c : ℕ)
          → contains (take t.nb_fwd_ports t.fwd_ports_ids) c
            ≡ (contains p.devs c && test_bit portmask c))
unfolding set_fwd_ports_mask
set_fwd_ports_mask-chooses p portmask s nonzero below few room =
    let ports = chosen_ports portmask p.devs in
    let fewer = length-chosen_ports portmask p.devs in
    let same = map-u16 portmask p.devs below in
    let nb : u16 (length ports) ≡ length ports = omega arith in
    let valid = all_valid-chosen_ports p portmask p.devs below (λ x m. m) in
    (
      with_ports ports s,
      ground (arith, mask_ports_lem portmask p.devs below, set_fwd_ports_list_lem p ports s),
      refl,
      λ c.
          rw (same, nb, take-overwrite s.fwd_ports_ids ports (omega arith))
            (contains-chosen_ports portmask p.devs c),
    )

-- The order that the configuration keeps between its counts of ports.
abbrev pub PortsOrdered : State → Type 0
PortsOrdered s = s.nb_fwd_ports ≤ s.nb_cfg_ports

-- If no more ports forward than are configured, no choice of a list or of a number of ports,
-- accepted or not, changes that.
pub set_fwd_ports-PortsOrdered :
    (p : Platform) (xs : List ℕ) (nb_pt : ℕ) (s : State)
    → PortsOrdered s
    → PortsOrdered (set_fwd_ports_number nb_pt s)
      × ((t : State) → set_fwd_ports_list p xs s ≡ some t → PortsOrdered t)
unfolding set_fwd_ports_number set_fwd_ports_list
set_fwd_ports-PortsOrdered p xs nb_pt s h = (ground arith, λ t e. ground arith)
