-- ===== src/Dump.antt =====
-- lib/core/dpdk/config.c, the callbacks that dump packets: `add_rx_dump_callbacks`,
-- `add_tx_dump_callbacks`, `remove_rx_dump_callbacks`, `remove_tx_dump_callbacks`,
-- `configure_rxtx_dump_callbacks` and `set_verbose_level`. `none` is an access out of bounds.
pub mod Slots
pub mod Level
use udx_fastpath.Base.{
  ℕ, zero, suc, Bool, true, false, ◌||◌, Option, none, some, ◌>>=◌, List, [], ◌∷◌, get_elem?, set,
  ltb, leb, ◌==◌, if◌then◌else◌,
}
use udx_fastpath.Select.Platform.{Platform, port_id_is_invalid}

-- `rx_dump_cb` and `tx_dump_cb`, a pointer as an option.
pub record Port : Type 0 where
  pub rx_dump_cb : List (Option ℕ)
  pub tx_dump_cb : List (Option ℕ)

-- The numbers of queues that DPDK gives of a port, `none` for an error.
pub record Queues : Type 0 where
  pub nb_rx_queues : ℕ
  pub nb_tx_queues : ℕ

-- DPDK: those numbers, and what `rte_eth_add_rx_callback` and `rte_eth_add_tx_callback` return for a
-- port and a queue.
pub record Env : Type 0 where
  pub info : ℕ → Option Queues
  pub add_rx : ℕ → ℕ → Option ℕ
  pub add_tx : ℕ → ℕ → Option ℕ

-- A queue that has no callback gets one.
pub add_next : (ℕ → Option ℕ) → ℕ → List (Option ℕ) → Option ℕ → List (Option ℕ)
add_next add queue cbs none = set cbs queue (add queue)
add_next add queue cbs (some cb) = cbs

-- A callback that is there is removed.
pub remove_next : ℕ → List (Option ℕ) → Option ℕ → List (Option ℕ)
remove_next queue cbs none = cbs
remove_next queue cbs (some cb) = set cbs queue none

-- The loop of an `add_` function: `n` queues from `queue` on.
pub add_each : (ℕ → Option ℕ) → ℕ → ℕ → List (Option ℕ) → Option (List (Option ℕ))
add_each add zero queue cbs = some cbs
add_each add (suc n) queue cbs = do
  cb ← get_elem? cbs queue
  add_each add n (suc queue) (add_next add queue cbs cb)

-- The loop of a `remove_` function.
pub remove_each : ℕ → ℕ → List (Option ℕ) → Option (List (Option ℕ))
remove_each zero queue cbs = some cbs
remove_each (suc n) queue cbs = do
  cb ← get_elem? cbs queue
  remove_each n (suc queue) (remove_next queue cbs cb)

-- Behind the check of the port's number and the call for the numbers of queues.
pub on_queues : Platform → Env → List Port → ℕ → (Queues → Port → Option Port) → Option (List Port)
on_queues p env ports portid op =
    if port_id_is_invalid p portid then some ports else elim (env.info portid) [
      | none ↦ some ports
      | some queues ↦ get_elem? ports portid >>= λ port.
          op queues port >>= λ port'. some (set ports portid port')
    ]

pub add_rx_dump_callbacks : Platform → Env → List Port → ℕ → Option (List Port)
add_rx_dump_callbacks p env ports portid = on_queues p env ports portid (λ queues port.
    add_each (env.add_rx portid) queues.nb_rx_queues 0 port.rx_dump_cb >>= λ cbs.
    some (record port { rx_dump_cb = cbs }))

pub add_tx_dump_callbacks : Platform → Env → List Port → ℕ → Option (List Port)
add_tx_dump_callbacks p env ports portid = on_queues p env ports portid (λ queues port.
    add_each (env.add_tx portid) queues.nb_tx_queues 0 port.tx_dump_cb >>= λ cbs.
    some (record port { tx_dump_cb = cbs }))

pub remove_rx_dump_callbacks : Platform → Env → List Port → ℕ → Option (List Port)
remove_rx_dump_callbacks p env ports portid = on_queues p env ports portid (λ queues port.
    remove_each queues.nb_rx_queues 0 port.rx_dump_cb >>= λ cbs.
    some (record port { rx_dump_cb = cbs }))

pub remove_tx_dump_callbacks : Platform → Env → List Port → ℕ → Option (List Port)
remove_tx_dump_callbacks p env ports portid = on_queues p env ports portid (λ queues port.
    remove_each queues.nb_tx_queues 0 port.tx_dump_cb >>= λ cbs.
    some (record port { tx_dump_cb = cbs }))

-- The body of the loop over the probed ports, and the loop.
pub configure_rx : Platform → Env → ℕ → List Port → ℕ → Option (List Port)
configure_rx p env verbose ports portid =
    if verbose == 1 || ltb 2 verbose
    then add_rx_dump_callbacks p env ports portid
    else remove_rx_dump_callbacks p env ports portid

pub configure_tx : Platform → Env → ℕ → List Port → ℕ → Option (List Port)
configure_tx p env verbose ports portid =
    if leb 2 verbose
    then add_tx_dump_callbacks p env ports portid
    else remove_tx_dump_callbacks p env ports portid

pub configure_each : Platform → Env → ℕ → List ℕ → List Port → Option (List Port)
configure_each p env verbose [] ports = some ports
configure_each p env verbose (portid ∷ devs) ports = do
  ports1 ← configure_rx p env verbose ports portid
  ports2 ← configure_tx p env verbose ports1 portid
  configure_each p env verbose devs ports2

pub configure_rxtx_dump_callbacks : Platform → Env → ℕ → List Port → Option (List Port)
configure_rxtx_dump_callbacks p env verbose ports = configure_each p env verbose p.devs ports

-- The level and the ports afterwards.
pub set_verbose_level : Platform → Env → ℕ → List Port → Option (ℕ × List Port)
set_verbose_level p env vb_level ports =
    configure_rxtx_dump_callbacks p env vb_level ports >>= λ ports'. some (vb_level, ports')
