-- ===== src/Fwd/Shared.antt =====
-- config.c, `pkt_fwd_shared_rxq_check`: a receive queue that ports share must not be polled from
-- different cores. `none` is an access past the end of an array.
pub mod Apart
use udx_fastpath.Base.{
  ℕ, zero, suc, Bool, true, false, ◌&&◌, ◌||◌, not, Option, none, some, ◌>>=◌, List, ◌==◌,
  if◌then◌else◌, get_elem?,
}
use udx_fastpath.Fwd.Types.{Stream, Lcore}

-- The part of the configuration of a queue that matters.
pub record SharedQueue : Type 0 where
  pub share_group : ℕ
  pub share_qid : ℕ

-- RTE_ETH_DEV_CAPA_RXQ_SHARE of a port, its switch domain, and its receive queues.
pub record SharedPort : Type 0 where
  pub capable : Bool
  pub domain_id : ℕ
  pub rxq : List SharedQueue

-- What two streams on different cores must not have in common.
pub record ShareKey : Type 0 where
  pub domain : ℕ
  pub group : ℕ
  pub qid : ℕ

-- The key of the queue of a stream, if the queue is shared.
unfoldable pub share_key : List SharedPort → Stream → Option (Option ShareKey)
share_key ports fs = get_elem? ports fs.rx_port >>= λ port. get_elem? port.rxq fs.rx_queue >>= λ q.
    let key : ShareKey = record {
      domain = port.domain_id;
      group = q.share_group;
      qid = q.share_qid;
    } in
    some (if not port.capable || q.share_group == 0 then none else some key)

abbrev pub same_key : ShareKey → Option ShareKey → Bool
same_key a none = false
same_key a (some b) = (a.domain == b.domain && b.group == a.group) && b.qid == a.qid

-- Whether one of `n` streams from position `sm_id` on has the key.
unfoldable pub key_on_streams : List SharedPort → List Stream → ShareKey → ℕ → ℕ → Option Bool
unfolding share_key
key_on_streams ports streams key zero sm_id = some false
key_on_streams ports streams key (suc n) sm_id =
    let rest = key_on_streams ports streams key n (suc sm_id) in
    get_elem? streams sm_id >>= λ fs.
    share_key ports fs >>= λ other. if same_key key other then some true else rest

-- The loop over `n` cores from `lc_id` on.
unfoldable pub fwd_stream_on_other_lcores :
    List SharedPort → List Stream → List Lcore → ShareKey → ℕ → ℕ → Option Bool
unfolding key_on_streams
fwd_stream_on_other_lcores ports streams lcores key zero lc_id = some false
fwd_stream_on_other_lcores ports streams lcores key (suc n) lc_id =
    let rest = fwd_stream_on_other_lcores ports streams lcores key n (suc lc_id) in
    get_elem? lcores lc_id >>= λ lc.
    key_on_streams ports streams key lc.stream_nb lc.stream_idx >>= λ found.
    if found then some true else rest

-- A queue that is not shared is passed over.
abbrev pub on_others : (ShareKey → Option Bool) → Option ShareKey → Option Bool
on_others f none = some false
on_others f (some key) = f key

-- The streams of core `lc_id`, `n` of them from position `sm_id` on; `left` cores come after it.
unfoldable pub check_streams :
    List SharedPort → List Stream → List Lcore → ℕ → ℕ → ℕ → ℕ → Option Bool
unfolding share_key fwd_stream_on_other_lcores
check_streams ports streams lcores lc_id left zero sm_id = some true
check_streams ports streams lcores lc_id left (suc n) sm_id =
    let rest = check_streams ports streams lcores lc_id left n (suc sm_id) in
    let others =
      λ (key : ShareKey). fwd_stream_on_other_lcores ports streams lcores key left (suc lc_id) in
    get_elem? streams sm_id >>= λ fs. share_key ports fs >>= λ key.
    on_others others key >>= λ found. if found then some false else rest

-- The loop over `n` cores from `lc_id` on.
unfoldable pub check_lcores : List SharedPort → List Stream → List Lcore → ℕ → ℕ → Option Bool
unfolding check_streams
check_lcores ports streams lcores zero lc_id = some true
check_lcores ports streams lcores (suc n) lc_id =
    let rest = check_lcores ports streams lcores n (suc lc_id) in
    get_elem? lcores lc_id >>= λ lc.
    check_streams ports streams lcores lc_id n lc.stream_nb lc.stream_idx >>= λ ok.
    if ok then rest else some false

-- The note of its core that each stream gets is left out.
unfoldable pub pkt_fwd_shared_rxq_check :
    ℕ → ℕ → List SharedPort → List Stream → List Lcore → Option Bool
unfolding check_lcores
pkt_fwd_shared_rxq_check rxq_share nb_fwd_lcores ports streams lcores =
    if rxq_share == 0 then some true else check_lcores ports streams lcores nb_fwd_lcores 0
