-- ===== src/System/Ports.antt =====
-- The VNC ports of the active sessions, through all operations of the lifecycle.
pub mod Rows
use knpodly.Base.{ℕ, ◌≡◌, ◌≢◌, refl, sym, Bool, true, some, inl, inr, contains, String}
use mathlib.Core.Path.{subst, subst₂}
use knpodly.Exec.{Result, ok, err}
use knpodly.Models.{User, VmSession, OperatingSystem, provisioning, failed, stopping}
use knpodly.World.{World, Env}
use knpodly.World.Tables.{active, update_rows}
use knpodly.World.Saves.{IsLoaded}
use knpodly.Lifecycle.{
  launch_vm, provision_vm, stop_vm, extend_session, record_activity, mark_state, mark_stopped,
  mark_activity,
}
use knpodly.Lifecycle.Launch.{Launches, launch_vm-Launches}
use knpodly.Lifecycle.Provision.{Provisions, provision_vm-Provisions}
use knpodly.Lifecycle.Stop.{Stops, stop_vm-Stops, final-closed}
use knpodly.Lifecycle.Extend.{
  extended, extend_session-ports, Extends, extend_session-Extends, record_activity_lem,
}
use knpodly.System.Ports.Rows.{
  Holds, PortsHeld, still-PortsHeld, closed-PortsHeld, opened-PortsHeld, more-PortsHeld,
  launched-PortsHeld,
}

module _ {H : Type 0} (env : Env H) where
  abbrev Held : World H → Type 0
  Held w = PortsHeld w.sessions w.ports

  launch-Held :
      (user : User) (slug : String) (w : World H) → Held w → Held (launch_vm env user slug w).1
  launch-Held user slug w held = launched _ (launch_vm-Launches env user slug w)
    where
      launched : (x : Result VmSession × World H) → Launches env user slug w x → Held x.1
      launched (ok s, v) l =
          subst₂ PortsHeld (sym l.stored) (sym l.no_port.1)
            (launched-PortsHeld w.sessions s w.ports l.no_port.0 held)
      launched (err e, v) k = subst₂ PortsHeld (sym k.0) (sym k.3) held

  module _ (w : World H) (s : VmSession) (loaded : IsLoaded w.sessions s) (held : Held w) where
    provision-Held : (os : OperatingSystem) → active s ≡ true → Held (provision_vm env s os w).1
    provision-Held os open_session =
        provisioned _ (provision_vm-Provisions env w s os loaded open_session)
      where
        marked : PortsHeld (update_rows s.id (mark_state provisioning) w.sessions) w.ports
        marked =
            still-PortsHeld s w.sessions (mark_state provisioning) (λ r. refl) loaded.stored w.ports
              held (λ e. (open_session, refl))

        provisioned :
            (x : Result VmSession × World H)
            → Provisions env w s os loaded open_session x
            → Held x.1
        provisioned (ok s', v) (port, token, p) =
            subst₂ PortsHeld (sym p.stored) (sym p.port_claimed) (
              opened-PortsHeld s w.sessions _ (λ r. refl) loaded.stored w.ports held port
                p.port_was_free refl)
        provisioned (err e, v) (inl (stderr, why, cause, sessions, ports, overlays)) =
            subst₂ PortsHeld (sym sessions) (sym ports) marked
        provisioned (err e, v) (inr (inl (full, sessions, ports, overlays))) =
            subst₂ PortsHeld (sym sessions) (sym ports) marked
        provisioned (err e, v) (inr (inr (port, why, sessions, free, ports, overlays))) =
            subst₂ PortsHeld (sym sessions) (sym ports) (
              more-PortsHeld _ w.ports port (
                still-PortsHeld s w.sessions (mark_state failed) (λ r. refl) loaded.stored w.ports
                  held (λ e. (open_session, refl))))

    stop-Held :
        (reason : String) (force : Bool) → active s ≡ true → Held (stop_vm env s reason force w).1
    stop-Held reason force open_session =
        stopped _ (stop_vm-Stops env w s reason force loaded open_session)
      where
        stopped :
            (x : Result VmSession × World H)
            → Stops env w s reason force loaded open_session x
            → Held x.1
        stopped (ok s', v) (session, sessions, ports, overlays) =
            subst₂ PortsHeld (sym sessions) (sym ports) (
              closed-PortsHeld s w.sessions (mark_stopped reason (w.clock w.clock_reads))
                (λ r. refl) loaded.stored w.ports held open_session
                (final-closed reason (w.clock w.clock_reads) s) s.vnc_port refl)
        stopped (err e, v) (sessions, ports, overlays) =
            subst₂ PortsHeld (sym sessions) (sym ports) (
              still-PortsHeld s w.sessions (mark_state stopping) (λ r. refl) loaded.stored w.ports
                held (λ e. (open_session, refl)))

    extend-Held : Held (extend_session env s w).1
    extend-Held =
        extended_by _ (extend_session-Extends env w s loaded) (extend_session-ports env w s loaded)
      where
        extended_by :
            (x : Result VmSession × World H)
            → Extends env w s loaded x
            → x.1.ports ≡ w.ports
            → Held x.1
        extended_by (ok s', v) (session, sessions, few) ports =
            subst₂ PortsHeld (sym sessions) (sym ports) (
              still-PortsHeld s w.sessions (extended env w s loaded) (λ r. refl) loaded.stored
                w.ports held (λ e. (e, refl)))
        extended_by (err e, v) (cause, full, same) ports = rw same held

    touch-Held : Held (record_activity s w).1
    touch-Held =
        subst (λ (x : Result (Unit {0}) × World H). Held x.1)
          (sym (record_activity_lem env w s loaded))
          (still-PortsHeld s w.sessions (mark_activity (w.clock w.clock_reads)) (λ r. refl)
            loaded.stored w.ports held (λ e. (e, refl)))

  -- The operations of the lifecycle, whether they return or raise, on sessions as they are stored; a
  -- session is provisioned or stopped only while it is active. In between anything but the sessions
  -- and the ports may change.
  pub data Lives (w : World H) : World H → Type 0 where
    begins : Lives w w
    launches :
        {v : World H} (user : User) (slug : String)
        → Lives w v
        → Lives w (launch_vm env user slug v).1
    provisions :
        {v : World H} (s : VmSession) (os : OperatingSystem)
        → Lives w v
        → IsLoaded v.sessions s
        → active s ≡ true
        → Lives w (provision_vm env s os v).1
    stops :
        {v : World H} (s : VmSession) (reason : String) (force : Bool)
        → Lives w v
        → IsLoaded v.sessions s
        → active s ≡ true
        → Lives w (stop_vm env s reason force v).1
    extends :
        {v : World H} (s : VmSession)
        → Lives w v
        → IsLoaded v.sessions s
        → Lives w (extend_session env s v).1
    touches :
        {v : World H} (s : VmSession)
        → Lives w v
        → IsLoaded v.sessions s
        → Lives w (record_activity s v).1
    changes :
        {v v' : World H} → Lives w v → v'.sessions ≡ v.sessions → v'.ports ≡ v.ports → Lives w v'

  Lives-Held : {w v : World H} → Held w → Lives w v → Held v
  Lives-Held held begins = held
  Lives-Held held (launches {v} user slug lives) = launch-Held user slug v (Lives-Held held lives)
  Lives-Held held (provisions {v} s os lives loaded open_session) =
      provision-Held v s loaded (Lives-Held held lives) os open_session
  Lives-Held held (stops {v} s reason force lives loaded open_session) =
      stop-Held v s loaded (Lives-Held held lives) reason force open_session
  Lives-Held held (extends {v} s lives loaded) = extend-Held v s loaded (Lives-Held held lives)
  Lives-Held held (touches {v} s lives loaded) = touch-Held v s loaded (Lives-Held held lives)
  Lives-Held held (changes lives sessions ports) =
      subst₂ PortsHeld (sym sessions) (sym ports) (Lives-Held held lives)

  -- From a state in which the ports of the active sessions are in the Redis set and apart, however
  -- sessions are launched, provisioned, stopped, extended and kept alive, whether this returns or
  -- raises, and whatever else changes in between but the sessions and the ports, two active sessions
  -- never have the same VNC port, and their ports stay in the set. A session is provisioned or
  -- stopped only while it is active.
  pub active_ports_apart :
      {w v : World H} (s t : VmSession) (p q : ℕ)
      → PortsHeld w.sessions w.ports
      → Lives w v
      → IsLoaded v.sessions s
      → IsLoaded v.sessions t
      → s.id ≢ t.id
      → active s ≡ true
      → active t ≡ true
      → s.vnc_port ≡ some p
      → t.vnc_port ≡ some q
      → (p ≢ q) × (contains p v.ports ≡ true) × (contains q v.ports ≡ true)
  active_ports_apart {v} s t p q held lives at_s at_t apart open_s open_t port_s port_t =
      let now = Lives-Held held lives in
      let has_p : Holds v.sessions s.id p = record {
        row = s;
        found = at_s.stored;
        open_session = open_s;
        at = port_s;
      } in
      let has_q : Holds v.sessions t.id q = record {
        row = t;
        found = at_t.stored;
        open_session = open_t;
        at = port_t;
      } in
      (
        λ same. apart (
            now.alone s.id t.id p has_p
              (subst (λ (n : ℕ). Holds v.sessions t.id n) (sym same) has_q)),
        now.claimed s.id p has_p,
        now.claimed t.id q has_q,
      )
