-- ===== src/Fwd/Setup/Streams.antt =====
-- What `init_fwd_streams` leaves of the state that the set-up reads.
use udx_fastpath.Base.{◌*◌, ◌≡◌, true, Bool, some, arith, length, u16, length-replicate}
use Prim.Native.Nat.{max}
use udx_fastpath.Fwd.Types.{State, Env, zero_stream}
use udx_fastpath.Fwd.Setup.{init_fwd_streams}

-- The part of the state that `init_fwd_streams` does not write.
pub record SameWiring (s t : State) : Type 0 where
  pub rxq : t.nb_rxq ≡ s.nb_rxq
  pub txq : t.nb_txq ≡ s.nb_txq
  pub probed : t.nb_ports ≡ s.nb_ports
  pub config : t.cfg ≡ s.cfg
  pub cores : t.lcores ≡ s.lcores
  pub fwd_ports : t.nb_fwd_ports ≡ s.nb_fwd_ports
  pub ids : t.fwd_ports_ids ≡ s.fwd_ports_ids
  pub topology : t.port_topology ≡ s.port_topology
  pub retry : t.retry_enabled ≡ s.retry_enabled
  pub proc : t.proc_id ≡ s.proc_id
  pub procs : t.num_procs ≡ s.num_procs

-- `nb_fwd_streams` counts the streams of the array.
abbrev pub Counted : State → Type 0
Counted s = length s.streams ≡ s.nb_fwd_streams

-- `init_fwd_streams` writes sockets and streams only, and keeps the count of the streams right.
pub init_fwd_streams-Same :
    (env : Env) (s : State) {t : State} {b : Bool}
    → Counted s
    → init_fwd_streams env s ≡ some (t, b)
    → SameWiring s t × Counted t
unfolding init_fwd_streams
init_fwd_streams-Same env s c h =
    ground (arith, length-replicate (u16 (s.nb_ports * max s.nb_rxq s.nb_txq)) zero_stream)

-- After a return of 0 there are as many streams as ports times queues.
pub nb_fwd_streams-init_fwd_streams :
    (env : Env) (s : State) {t : State}
    → init_fwd_streams env s ≡ some (t, true)
    → t.nb_fwd_streams ≡ u16 (s.nb_ports * max s.nb_rxq s.nb_txq)
unfolding init_fwd_streams
nb_fwd_streams-init_fwd_streams env s h = ground arith
