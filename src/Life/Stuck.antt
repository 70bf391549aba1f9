-- ===== src/Life/Stuck.antt =====
-- dpdk.cpp: a port in RTE_PORT_HANDLING is left there by `start_port`, `stop_port` and `reset_port`.
use udx_fastpath.Base.{
  ℕ, ◌≡◌, refl, ap, sym, ◌∙◌, Bool, ◌&&◌, some, some_inj, List, [], ◌∷◌, ◌==◌, if◌then◌else◌, on_if,
  get_elem?, get_elem?-some-lt, get_elem?-set_self, get_elem?-set_ne, set, OnSome, OnSome-bind,
  OnSome-bind_eq, OnSome-eq, Bool-cases, inl, inr,
}
use native.Mathlib.Decide.{ℕ_discrete}
use udx_fastpath.Select.Platform.{port_all}
use udx_fastpath.Life.{
  handling, LifePort, Globals, Driver, invalid, selects, all_ports_stopped, port_is_stopped,
}
use udx_fastpath.Life.Start.{is_failed, start_one, start_loop, start_port}
use udx_fastpath.Life.Stop.{forwards, stop_one, each_port, stop_port, reset_one, reset_port}

-- The port is in handling.
abbrev pub IsStuck : ℕ → List LifePort → Type 0
IsStuck i ports = (p : LifePort) × (get_elem? ports i ≡ some p) × (p.port_status ≡ handling)

set-IsStuck :
    (i pi : ℕ) (ports : List LifePort) (port q : LifePort)
    → get_elem? ports pi ≡ some port
    → (port.port_status ≡ handling → q.port_status ≡ handling)
    → IsStuck i ports
    → IsStuck i (set ports pi q)
set-IsStuck i pi ports port q at keeps (p, e, h) = elim (ℕ_discrete pi i) [
  | yes same ↦
      let at_i : get_elem? ports i ≡ some port = ap (get_elem? ports) (sym same) ∙ at in
      let here = ap (λ x. x.port_status) (some_inj (sym at_i ∙ e)) ∙ h in
      (
        q,
        ap (get_elem? (set ports pi q)) (sym same)
            ∙ get_elem?-set_self ports pi q (get_elem?-some-lt ports pi at),
        keeps here,
      )
  | no ne ↦ (p, get_elem?-set_ne ports pi i q ne ∙ e, h)
]

start_one-handling :
    (g : Globals) (env : Driver) (pi : ℕ) (p : LifePort)
    → p.port_status ≡ handling
    → (start_one g env pi p).0.port_status ≡ handling
unfolding start_one
start_one-handling g env pi p h = rw h refl

start_loop-IsStuck :
    (g : Globals) (env : Driver) (pid i : ℕ) (pis : List ℕ) (ports : List LifePort)
    → IsStuck i ports
    → OnSome (λ r. IsStuck i r.0) (start_loop g env pid pis ports)
unfolding start_loop
start_loop-IsStuck g env pid i [] ports h = h
start_loop-IsStuck g env pid i (pi ∷ pis) ports h =
    let P : List LifePort × Bool → Type 0 = λ r. IsStuck i r.0 in
    on_if (OnSome P) (selects pid pi)
      (OnSome-bind_eq P (get_elem? ports pi) _ (λ port at.
        let r = start_one g env pi port in
        let next = set-IsStuck i pi ports port r.0 at (start_one-handling g env pi port) h in
        on_if (OnSome P) (is_failed r.1) next
          (start_loop-IsStuck g env pid i pis (set ports pi r.0) next)))
      (start_loop-IsStuck g env pid i pis ports h)

each_port-IsStuck :
    (body : ℕ → LifePort → LifePort)
    → ((pi : ℕ) (p : LifePort) → p.port_status ≡ handling → (body pi p).port_status ≡ handling)
    → (pid i : ℕ) (pis : List ℕ) (ports : List LifePort) → IsStuck i ports
    → OnSome (IsStuck i) (each_port body pid pis ports)
unfolding each_port
each_port-IsStuck body keeps pid i [] ports h = h
each_port-IsStuck body keeps pid i (pi ∷ pis) ports h =
    on_if (OnSome (IsStuck i)) (selects pid pi)
      (OnSome-bind_eq (IsStuck i) (get_elem? ports pi) _ (λ port at.
        each_port-IsStuck body keeps pid i pis (set ports pi (body pi port))
          (set-IsStuck i pi ports port (body pi port) at (keeps pi port) h)))
      (each_port-IsStuck body keeps pid i pis ports h)

stop_one-handling :
    (g : Globals) (env : Driver) (fwd : List ℕ) (pi : ℕ) (p : LifePort)
    → p.port_status ≡ handling
    → (stop_one g env fwd pi p).port_status ≡ handling
unfolding stop_one
stop_one-handling g env fwd pi p h = elim (Bool-cases (forwards env fwd pi)) [
  | inl e ↦ rw (h, e) refl
  | inr e ↦ rw (h, e) refl
]

reset_one-handling :
    (g : Globals) (env : Driver) (fwd : List ℕ) (pi : ℕ) (p : LifePort)
    → p.port_status ≡ handling
    → (reset_one g env fwd pi p).port_status ≡ handling
unfolding reset_one
reset_one-handling g env fwd pi p h =
    let P : LifePort → Type 0 = λ q. q.port_status ≡ handling in
    on_if P (forwards env fwd pi) h (on_if P (g.primary && env.dev_reset pi) h h)

-- One call, with whatever the devices answer and whichever ports forward at the time.
pub data Step (g : Globals) : List LifePort → List LifePort → Type 0 where
  start_step :
      (env : Driver) (pid : ℕ) (ports : List LifePort) (r : List LifePort × Bool)
      → start_port g env pid ports ≡ some r
      → Step g ports r.0
  stop_step :
      (env : Driver) (fwd : List ℕ) (pid : ℕ) (ports next : List LifePort)
      → stop_port g env fwd pid ports ≡ some next
      → Step g ports next
  reset_step :
      (env : Driver) (fwd : List ℕ) (pid : ℕ) (ports next : List LifePort)
      → reset_port g env fwd pid ports ≡ some next
      → Step g ports next

pub data Reach (g : Globals) : List LifePort → List LifePort → Type 0 where
  here : (ports : List LifePort) → Reach g ports ports
  then_step : (a b c : List LifePort) → Reach g a b → Step g b c → Reach g a c

start_port-IsStuck :
    (g : Globals) (env : Driver) (pid i : ℕ) (ports : List LifePort)
    → IsStuck i ports
    → OnSome (λ r. IsStuck i r.0) (start_port g env pid ports)
unfolding start_port
start_port-IsStuck g env pid i ports h =
    on_if (OnSome (λ r. IsStuck i r.0)) (invalid env pid) h
      (start_loop-IsStuck g env pid i env.devs ports h)

stop_port-IsStuck :
    (g : Globals) (env : Driver) (fwd : List ℕ) (pid i : ℕ) (ports : List LifePort)
    → IsStuck i ports
    → OnSome (IsStuck i) (stop_port g env fwd pid ports)
unfolding stop_port
stop_port-IsStuck g env fwd pid i ports h =
    on_if (OnSome (IsStuck i)) (invalid env pid) h
      (each_port-IsStuck (stop_one g env fwd) (stop_one-handling g env fwd) pid i env.devs ports h)

reset_port-IsStuck :
    (g : Globals) (env : Driver) (fwd : List ℕ) (pid i : ℕ) (ports : List LifePort)
    → IsStuck i ports
    → OnSome (IsStuck i) (reset_port g env fwd pid ports)
unfolding reset_port
reset_port-IsStuck g env fwd pid i ports h = on_if (OnSome (IsStuck i)) (invalid env pid) h (
    OnSome-bind (IsStuck i)
      (if pid == port_all then all_ports_stopped env ports else port_is_stopped ports pid) _
      (λ ok.
        on_if (OnSome (IsStuck i)) ok
          (each_port-IsStuck (reset_one g env fwd) (reset_one-handling g env fwd) pid i env.devs
            ports h)
          h))

Step-IsStuck : (g : Globals) (i : ℕ) (a b : List LifePort) → Step g a b → IsStuck i a → IsStuck i b
Step-IsStuck g i _ _ (start_step env pid ports r e) h =
    OnSome-eq (λ x. IsStuck i x.0) e (start_port-IsStuck g env pid i ports h)
Step-IsStuck g i _ _ (stop_step env fwd pid ports next e) h =
    OnSome-eq (IsStuck i) e (stop_port-IsStuck g env fwd pid i ports h)
Step-IsStuck g i _ _ (reset_step env fwd pid ports next e) h =
    OnSome-eq (IsStuck i) e (reset_port-IsStuck g env fwd pid i ports h)

-- No sequence of calls leads out of handling.
pub Reach-IsStuck :
    (g : Globals) (i : ℕ) (a b : List LifePort) → Reach g a b → IsStuck i a → IsStuck i b
Reach-IsStuck g i _ _ (here ports) h = h
Reach-IsStuck g i _ _ (then_step a b c r s) h = Step-IsStuck g i b c s (Reach-IsStuck g i a b r h)
