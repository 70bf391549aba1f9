-- ===== src/Dump/Level.antt =====
-- Which callbacks a verbose level leaves on the queues of the probed ports.
use udx_fastpath.Base.{
  ℕ, ◌≤◌, ◌<◌, ◌≡◌, ◌≢◌, refl, sym, ◌∙◌, Bool, true, false, ◌||◌, Option, none, some, List, [], ◌∷◌,
  get_elem?, set, length, arith, get_elem?-some-lt, get_elem?-set_self, get_elem?-set_ne, inl, inr,
  Bool-cases, ltb, leb, ◌==◌, if◌then◌else◌, some_inj,
}
use Prim.{Unit, tt}
use native.Mathlib.Decide.{ℕ_discrete}
use udx_fastpath.Select.Platform.{Platform, contains, port_id_is_invalid}
use udx_fastpath.Dump.{
  Port, Queues, Env, on_queues, add_rx_dump_callbacks, add_tx_dump_callbacks,
  remove_rx_dump_callbacks, remove_tx_dump_callbacks, configure_rx, configure_tx, configure_each,
  configure_rxtx_dump_callbacks, set_verbose_level,
}
use udx_fastpath.Dump.Slots.{filled, add_each_lem, remove_each_lem}

-- A port that is valid, whose queues DPDK tells, with a slot for each queue.
pub record Ready (p : Platform) (env : Env) (portid : ℕ) (queues : Queues) (port : Port)
    : Type 0 where
  pub valid : port_id_is_invalid p portid ≡ false
  pub known : env.info portid ≡ some queues
  pub rx_room : queues.nb_rx_queues ≤ length port.rx_dump_cb
  pub tx_room : queues.nb_tx_queues ≤ length port.tx_dump_cb

-- The slots of the first `n` queues: filled if `on`, and otherwise empty.
abbrev pub Switched : Bool → (ℕ → Option ℕ) → ℕ → List (Option ℕ) → List (Option ℕ) → Type 0
Switched on add n cbs cbs' =
    (j : ℕ) (cb : Option ℕ)
    → j < n
    → get_elem? cbs j ≡ some cb
    → get_elem? cbs' j ≡ some (if on then filled add j cb else none)

abbrev pub rx_on : ℕ → Bool
rx_on verbose = verbose == 1 || ltb 2 verbose

-- The port after the pass.
pub record IsConfigured (env : Env) (verbose portid : ℕ) (queues : Queues) (port port' : Port)
    : Type 0 where
  pub rx :
      Switched
        (rx_on verbose)
        (env.add_rx portid)
        queues.nb_rx_queues
        port.rx_dump_cb
        port'.rx_dump_cb
  pub tx :
      Switched
        (leb 2 verbose)
        (env.add_tx portid)
        queues.nb_tx_queues
        port.tx_dump_cb
        port'.tx_dump_cb

module _ (p : Platform) (env : Env) where
  on_queues_lem :
      (ports : List Port) (portid : ℕ) (queues : Queues) (port port' : Port)
      → (op : Queues → Port → Option Port) → port_id_is_invalid p portid ≡ false
      → env.info portid ≡ some queues
      → get_elem? ports portid ≡ some port
      → op queues port ≡ some port'
      → on_queues p env ports portid op ≡ some (set ports portid port')
  unfolding on_queues
  on_queues_lem ports portid queues port port' op valid known here done =
      ground (arith, valid, known, here, done)

  switch_rx :
      (verbose portid : ℕ) (ports : List Port) (queues : Queues) (port : Port)
      → Ready p env portid queues port
      → get_elem? ports portid ≡ some port
      → (cbs : List (Option ℕ)) × (configure_rx p env verbose ports portid
          ≡ some (set ports portid (record port { rx_dump_cb = cbs })))
        × Switched (rx_on verbose) (env.add_rx portid) queues.nb_rx_queues port.rx_dump_cb cbs
        × (length cbs ≡ length port.rx_dump_cb)
  unfolding configure_rx add_rx_dump_callbacks remove_rx_dump_callbacks
  switch_rx verbose portid ports queues port r here = elim (Bool-cases (rx_on verbose)) [
    | inl on ↦
        let (cbs, done, size, inside, others) =
          add_each_lem (env.add_rx portid) queues.nb_rx_queues 0 port.rx_dump_cb
            (omega (arith, r.rx_room)) in
        (
          cbs,
          rw on (
              on_queues_lem ports portid queues port (record port { rx_dump_cb = cbs }) _ r.valid
                r.known here (rw done refl)),
          λ j cb l e. rw on (inside j cb (omega arith) (omega arith) e),
          size,
        )
    | inr off ↦
        let (cbs, done, size, inside, others) =
          remove_each_lem queues.nb_rx_queues 0 port.rx_dump_cb (omega (arith, r.rx_room)) in
        (
          cbs,
          rw off (
              on_queues_lem ports portid queues port (record port { rx_dump_cb = cbs }) _ r.valid
                r.known here (rw done refl)),
          λ j cb l e. rw off (inside j (omega arith) (omega arith)),
          size,
        )
  ]

  switch_tx :
      (verbose portid : ℕ) (ports : List Port) (queues : Queues) (port : Port)
      → Ready p env portid queues port
      → get_elem? ports portid ≡ some port
      → (cbs : List (Option ℕ)) × (configure_tx p env verbose ports portid
          ≡ some (set ports portid (record port { tx_dump_cb = cbs })))
        × Switched (leb 2 verbose) (env.add_tx portid) queues.nb_tx_queues port.tx_dump_cb cbs
  unfolding configure_tx add_tx_dump_callbacks remove_tx_dump_callbacks
  switch_tx verbose portid ports queues port r here = elim (Bool-cases (leb 2 verbose)) [
    | inl on ↦
        let (cbs, done, size, inside, others) =
          add_each_lem (env.add_tx portid) queues.nb_tx_queues 0 port.tx_dump_cb
            (omega (arith, r.tx_room)) in
        (
          cbs,
          rw on (
              on_queues_lem ports portid queues port (record port { tx_dump_cb = cbs }) _ r.valid
                r.known here (rw done refl)),
          λ j cb l e. rw on (inside j cb (omega arith) (omega arith) e),
        )
    | inr off ↦
        let (cbs, done, size, inside, others) =
          remove_each_lem queues.nb_tx_queues 0 port.tx_dump_cb (omega (arith, r.tx_room)) in
        (
          cbs,
          rw off (
              on_queues_lem ports portid queues port (record port { tx_dump_cb = cbs }) _ r.valid
                r.known here (rw done refl)),
          λ j cb l e. rw off (inside j (omega arith) (omega arith)),
        )
  ]

  configure_one_lem :
      (verbose portid : ℕ) (ports : List Port) (queues : Queues) (port : Port)
      → Ready p env portid queues port
      → get_elem? ports portid ≡ some port
      → (ports1 : List Port) × (ports2 : List Port) × (port' : Port) × (configure_rx p env verbose
            ports portid
          ≡ some ports1)
        × (configure_tx p env verbose ports1 portid ≡ some ports2)
        × (get_elem? ports2 portid ≡ some port')
        × IsConfigured env verbose portid queues port port'
        × ((j : ℕ) → j ≢ portid → get_elem? ports2 j ≡ get_elem? ports j)
  configure_one_lem verbose portid ports queues port r here =
      let (rx, done_rx, rx_switched, size) = switch_rx verbose portid ports queues port r here in
      let port1 = record port { rx_dump_cb = rx } in
      let ports1 = set ports portid port1 in
      let inside = get_elem?-some-lt ports portid here in
      let here1 = get_elem?-set_self ports portid port1 inside in
      let r1 : Ready p env portid queues port1 = record {
        valid = r.valid;
        known = r.known;
        rx_room = omega (arith, r.rx_room, size);
        tx_room = r.tx_room;
      } in
      let (tx, done_tx, tx_switched) = switch_tx verbose portid ports1 queues port1 r1 here1 in
      let port2 = record port1 { tx_dump_cb = tx } in
      (
        ports1,
        set ports1 portid port2,
        port2,
        done_rx,
        done_tx,
        get_elem?-set_self ports1 portid port2 (get_elem?-some-lt ports1 portid here1),
        record { rx = rx_switched; tx = tx_switched },
        λ j ne.
            get_elem?-set_ne ports1 portid j port2 (λ e. ne (sym e))
            ∙ get_elem?-set_ne ports portid j port1 (λ e. ne (sym e)),
      )

  -- Each probed port is listed once and ready.
  abbrev pub AllReady : List ℕ → List Port → Type 0
  AllReady [] ports = Unit
  AllReady (d ∷ ds) ports =
      (contains ds d ≡ false)
      × ((queues : Queues) × (port : Port) × (get_elem? ports d ≡ some port)
          × Ready p env d queues port)
      × AllReady ds ports

  AllReady-set :
      (d : ℕ) (ds : List ℕ) (ports ports' : List Port)
      → contains ds d ≡ false
      → ((j : ℕ) → j ≢ d → get_elem? ports' j ≡ get_elem? ports j)
      → AllReady ds ports
      → AllReady ds ports'
  unfolding contains
  AllReady-set d [] ports ports' c same a = tt
  AllReady-set d (x ∷ ds) ports ports' c same a =
      let (once, (queues, port, here, ready), rest) = a in
      (
        once,
        (queues, port, same x (λ e. ground (arith, c, e)) ∙ here, ready),
        AllReady-set d ds ports ports' (ground (arith, c)) same rest,
      )

  configure_each-step :
      (verbose d : ℕ) (ds : List ℕ) (ports ports1 ports2 : List Port)
      → configure_rx p env verbose ports d ≡ some ports1
      → configure_tx p env verbose ports1 d ≡ some ports2
      → configure_each p env verbose (d ∷ ds) ports ≡ configure_each p env verbose ds ports2
  unfolding configure_each
  configure_each-step verbose d ds ports ports1 ports2 a b = rw (a, b)

  configure_each_lem :
      (verbose : ℕ) (devs : List ℕ) (ports : List Port)
      → AllReady devs ports
      → (ports' : List Port) × (configure_each p env verbose devs ports ≡ some ports')
        × ((portid : ℕ) (queues : Queues) (port : Port)
            → contains devs portid ≡ true
            → get_elem? ports portid ≡ some port
            → Ready p env portid queues port
            → (port' : Port) × (get_elem? ports' portid ≡ some port')
              × IsConfigured env verbose portid queues port port')
        × ((j : ℕ) → contains devs j ≡ false → get_elem? ports' j ≡ get_elem? ports j)
  unfolding configure_each contains
  configure_each_lem verbose [] ports a =
      (ports, refl, λ portid queues port c h r. absurd (cc), λ j c. refl)
  configure_each_lem verbose (d ∷ ds) ports a =
      let (once, (queues, port, here, ready), rest) = a in
      let (ports1, ports2, port', rx, tx, here', configured, others) =
        configure_one_lem verbose d ports queues port ready here in
      let (ports', done, all, outside) =
        configure_each_lem verbose ds ports2 (AllReady-set d ds ports ports2 once others rest) in
      (
        ports',
        configure_each-step verbose d ds ports ports1 ports2 rx tx ∙ done,
        λ portid q pt c h r. elim (ℕ_discrete d portid) [
          | yes first ↦
              let same_port : port ≡ pt = some_inj (sym here ∙ rw (← first) at h) in
              let same_queues : queues ≡ q = some_inj (sym ready.known ∙ rw (← first) at r.known) in
              rw (← first, ← same_port, ← same_queues) (port', outside d once ∙ here', configured)
          | no ne ↦ all portid q pt (ground (arith, c)) (others portid (λ e. ne (sym e)) ∙ h) r
        ],
        λ j c. outside j (ground (arith, c)) ∙ others j (λ e. ground (arith, c, e)),
      )

  -- If the probed ports are listed once each, are valid, and have a slot for each queue that DPDK
  -- tells, setting the verbose level succeeds. The receive slot of every queue of every probed port
  -- then has the callback it had or, where it had none, what DPDK answers to the call that adds one
  -- (which may be none), for a level of 1 or above 2, and none otherwise; the same holds of the
  -- transmit slot for a level of at least 2.
  pub set_verbose_level_lem :
      (vb_level : ℕ) (ports : List Port)
      → AllReady p.devs ports
      → (ports' : List Port) × (set_verbose_level p env vb_level ports ≡ some (vb_level, ports'))
        × ((portid : ℕ) (queues : Queues) (port : Port)
            → contains p.devs portid ≡ true
            → get_elem? ports portid ≡ some port
            → Ready p env portid queues port
            → (port' : Port) × (get_elem? ports' portid ≡ some port')
              × IsConfigured env vb_level portid queues port port')
  unfolding set_verbose_level configure_rxtx_dump_callbacks
  set_verbose_level_lem vb_level ports a =
      let (ports', done, all, outside) = configure_each_lem vb_level p.devs ports a in
      (ports', rw done refl, all)
