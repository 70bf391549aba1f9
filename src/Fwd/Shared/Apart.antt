-- ===== src/Fwd/Shared/Apart.antt =====
-- config.c, `pkt_fwd_shared_rxq_check`: what an accepted configuration has.
use udx_fastpath.Base.{
  ℕ, zero, suc, ◌+◌, ◌≤◌, ◌<◌, ◌≡◌, ◌≢◌, refl, ap, sym, ◌∙◌, Bool, true, false, Option, some,
  some_inj, >>=-eq-some, List, ◌==◌, if◌then◌else◌, if-false, get_elem?, arith,
}
use native.Mathlib.Decide.{ℕ_discrete}
use udx_fastpath.Fwd.Types.{Stream, Lcore}
use udx_fastpath.Fwd.Shared.{
  SharedPort, ShareKey, share_key, same_key, key_on_streams, fwd_stream_on_other_lcores, on_others,
  check_streams, check_lcores, pkt_fwd_shared_rxq_check,
}

-- A search that finds nothing, and a check that passes, at their first step.
not_found :
    (b : Bool) (rest : Option Bool)
    → (if b then some true else rest) ≡ some false
    → (b ≡ false) × (rest ≡ some false)
not_found true rest h = absurd (cc)
not_found false rest h = (refl, h)

passed :
    (b : Bool) (rest : Option Bool)
    → (if b then rest else some false) ≡ some true
    → (b ≡ true) × (rest ≡ some true)
passed true rest h = (refl, h)
passed false rest h = absurd (cc)

not_stopped :
    (b : Bool) (rest : Option Bool)
    → (if b then some false else rest) ≡ some true
    → (b ≡ false) × (rest ≡ some true)
not_stopped true rest h = absurd (cc)
not_stopped false rest h = (refl, h)

key_on_streams-apart :
    (ports : List SharedPort) (streams : List Stream) (key : ShareKey) (n sm_id j : ℕ)
    → key_on_streams ports streams key n sm_id ≡ some false
    → sm_id ≤ j
    → j < sm_id + n
    → (fs : Stream) (other : Option ShareKey) → get_elem? streams j ≡ some fs
    → share_key ports fs ≡ some other
    → same_key key other ≡ false
unfolding key_on_streams
key_on_streams-apart ports streams key zero sm_id j h low high fs other at k = absurd (omega arith)
key_on_streams-apart ports streams key (suc n) sm_id j h low high fs other at k =
    let (f, at_f, h1) = >>=-eq-some (get_elem? streams sm_id) _ h in
    let (o, k_f, h2) = >>=-eq-some (share_key ports f) _ h1 in
    let (ne, rest) =
      not_found (same_key key o) (key_on_streams ports streams key n (suc sm_id)) h2 in
    elim (ℕ_discrete sm_id j) [
      | yes same ↦
          let same_f : f ≡ fs = some_inj (sym at_f ∙ ap (get_elem? streams) same ∙ at) in
          let same_o : o ≡ other = some_inj (sym k_f ∙ ap (share_key ports) same_f ∙ k) in
          ap (same_key key) (sym same_o) ∙ ne
      | no differ ↦
          key_on_streams-apart ports streams key n (suc sm_id) j rest (ground (arith, differ, low))
            (omega arith) fs other at k
    ]

other_lcores-apart :
    (ports : List SharedPort) (streams : List Stream) (lcores : List Lcore) (key : ShareKey)
    (n lc_id b : ℕ)
    → fwd_stream_on_other_lcores ports streams lcores key n lc_id ≡ some false
    → lc_id ≤ b
    → b < lc_id + n
    → (lc : Lcore) → get_elem? lcores b ≡ some lc
    → key_on_streams ports streams key lc.stream_nb lc.stream_idx ≡ some false
unfolding fwd_stream_on_other_lcores
other_lcores-apart ports streams lcores key zero lc_id b h low high lc at = absurd (omega arith)
other_lcores-apart ports streams lcores key (suc n) lc_id b h low high lc at =
    let (c, at_c, h1) = >>=-eq-some (get_elem? lcores lc_id) _ h in
    let (found, k, h2) =
      >>=-eq-some (key_on_streams ports streams key c.stream_nb c.stream_idx) _ h1 in
    let (ne, rest) =
      not_found found (fwd_stream_on_other_lcores ports streams lcores key n (suc lc_id)) h2 in
    elim (ℕ_discrete lc_id b) [
      | yes same ↦
          let same_c : c ≡ lc = some_inj (sym at_c ∙ ap (get_elem? lcores) same ∙ at) in
          ap (λ (x : Lcore). key_on_streams ports streams key x.stream_nb x.stream_idx) (sym same_c)
          ∙ k
          ∙ ap some ne
      | no differ ↦
          other_lcores-apart ports streams lcores key n (suc lc_id) b rest
            (ground (arith, differ, low)) (omega arith) lc at
    ]

check_streams-apart :
    (ports : List SharedPort) (streams : List Stream) (lcores : List Lcore)
    (lc_id left n sm_id i : ℕ)
    → check_streams ports streams lcores lc_id left n sm_id ≡ some true
    → sm_id ≤ i
    → i < sm_id + n
    → (fs : Stream) (key : ShareKey) → get_elem? streams i ≡ some fs
    → share_key ports fs ≡ some (some key)
    → fwd_stream_on_other_lcores ports streams lcores key left (suc lc_id) ≡ some false
unfolding check_streams
check_streams-apart ports streams lcores lc_id left zero sm_id i h low high fs key at k =
    absurd (omega arith)
check_streams-apart ports streams lcores lc_id left (suc n) sm_id i h low high fs key at k =
    let others =
      λ (x : ShareKey). fwd_stream_on_other_lcores ports streams lcores x left (suc lc_id) in
    let (f, at_f, h1) = >>=-eq-some (get_elem? streams sm_id) _ h in
    let (o, k_f, h2) = >>=-eq-some (share_key ports f) _ h1 in
    let (found, e, h3) = >>=-eq-some (on_others others o) _ h2 in
    let (ne, rest) =
      not_stopped found (check_streams ports streams lcores lc_id left n (suc sm_id)) h3 in
    elim (ℕ_discrete sm_id i) [
      | yes same ↦
          let same_f : f ≡ fs = some_inj (sym at_f ∙ ap (get_elem? streams) same ∙ at) in
          let same_o : o ≡ some key = some_inj (sym k_f ∙ ap (share_key ports) same_f ∙ k) in
          ap (on_others others) (sym same_o) ∙ e ∙ ap some ne
      | no differ ↦
          check_streams-apart ports streams lcores lc_id left n (suc sm_id) i rest
            (ground (arith, differ, low)) (omega arith) fs key at k
    ]

-- The cores that come after core `a` are `left` many.
check_lcores-apart :
    (ports : List SharedPort) (streams : List Stream) (lcores : List Lcore) (n lc_id a : ℕ)
    → check_lcores ports streams lcores n lc_id ≡ some true
    → lc_id ≤ a
    → a < lc_id + n
    → (lc : Lcore) → get_elem? lcores a ≡ some lc
    → (left : ℕ) × (suc a + left ≡ lc_id + n)
      × (check_streams ports streams lcores a left lc.stream_nb lc.stream_idx ≡ some true)
unfolding check_lcores
check_lcores-apart ports streams lcores zero lc_id a h low high lc at = absurd (omega arith)
check_lcores-apart ports streams lcores (suc n) lc_id a h low high lc at =
    let (c, at_c, h1) = >>=-eq-some (get_elem? lcores lc_id) _ h in
    let (ok, k, h2) =
      >>=-eq-some (check_streams ports streams lcores lc_id n c.stream_nb c.stream_idx) _ h1 in
    let (yes_ok, rest) = passed ok (check_lcores ports streams lcores n (suc lc_id)) h2 in
    elim (ℕ_discrete lc_id a) [
      | yes same ↦
          let same_c : c ≡ lc = some_inj (sym at_c ∙ ap (get_elem? lcores) same ∙ at) in
          (
            n,
            omega (arith, same),
            ap (λ x. check_streams ports streams lcores x n lc.stream_nb lc.stream_idx) (sym same)
                ∙ ap
                    (λ (x : Lcore).
                      check_streams ports streams lcores lc_id n x.stream_nb x.stream_idx)
                    (sym same_c)
                ∙ k
                ∙ ap some yes_ok,
          )
      | no differ ↦
          let (left, e, r) =
            check_lcores-apart ports streams lcores n (suc lc_id) a rest
              (ground (arith, differ, low)) (omega arith) lc at in
          (left, omega (arith, e), r)
    ]

-- If receive queues are shared and the check of the forwarding configuration passes, no shared
-- queue (of the same switch domain, group and number) is polled by two streams of different cores
-- among the forwarding ones.
pub pkt_fwd_shared_rxq_check-apart :
    (rxq_share nb_fwd_lcores : ℕ) (ports : List SharedPort) (streams : List Stream)
    (lcores : List Lcore) (a b i j : ℕ) (ca cb : Lcore) (fs other : Stream) (key key' : ShareKey)
    → rxq_share ≢ 0
    → pkt_fwd_shared_rxq_check rxq_share nb_fwd_lcores ports streams lcores ≡ some true
    → a < b
    → b < nb_fwd_lcores
    → get_elem? lcores a ≡ some ca
    → get_elem? lcores b ≡ some cb
    → ca.stream_idx ≤ i
    → i < ca.stream_idx + ca.stream_nb
    → cb.stream_idx ≤ j
    → j < cb.stream_idx + cb.stream_nb
    → get_elem? streams i ≡ some fs
    → get_elem? streams j ≡ some other
    → share_key ports fs ≡ some (some key)
    → share_key ports other ≡ some (some key')
    → same_key key (some key') ≡ false
unfolding pkt_fwd_shared_rxq_check
pkt_fwd_shared_rxq_check-apart rxq_share nb ports streams lcores a b i j ca cb fs other key key' ne
      h ab bn at_a at_b i0 i1 j0 j1 at_i at_j k k' =
    let zero_test : (rxq_share == 0) ≡ false = ground (arith, ne) in
    let h1 =
      sym (if-false (rxq_share == 0) (some true) (check_lcores ports streams lcores nb 0) zero_test)
      ∙ h in
    let (left, e, h2) =
      check_lcores-apart ports streams lcores nb 0 a h1 (omega arith) (omega arith) ca at_a in
    let h3 =
      check_streams-apart ports streams lcores a left ca.stream_nb ca.stream_idx i h2 i0 i1 fs key
        at_i k in
    let h4 =
      other_lcores-apart ports streams lcores key left (suc a) b h3 (omega arith) (omega (arith, e))
        cb at_b in
    key_on_streams-apart ports streams key cb.stream_nb cb.stream_idx j h4 j0 j1 other (some key')
      at_j k'
