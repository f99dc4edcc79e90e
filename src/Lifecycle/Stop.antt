-- ===== src/Lifecycle/Stop.antt =====
-- `stop_vm` on an active session, for every libvirt driver.
use knpodly.Base.{
  ℕ, suc, ◌≡◌, refl, String, Bool, true, false, inl, inr, if◌then◌else◌, Option, none, some, List,
  arith, erase,
}
use knpodly.Exec.{Exec, Result, ok, err, ◌>>◌}
use knpodly.Exec.Runs.{Runs, Result-cases, Runs-bind-ok, Runs-bind-err, Runs-refl}
use knpodly.Text.{given}
use knpodly.Models.{Time, VmSession, stopping}
use knpodly.World.{World, Env, save, read_clock, on_host}
use knpodly.World.Tables.{active, update_rows}
use knpodly.World.Tables.Laws.{Preserving}
use knpodly.World.Saves.{IsLoaded, save_lem, save-IsLoaded, refresh_lem, on_host_lem, update-update}
use knpodly.Overlay.{remove_file, destroy_overlay, release_vnc_port}
use knpodly.Lifecycle.{mark_state, mark_stopped, stop_domain, remove_overlay, release_port, stop_vm}

abbrev pub ports_without : Option ℕ → List ℕ → List ℕ
ports_without none ports = ports
ports_without (some port) ports = erase port ports

abbrev pub files_without : Option String → List String → List String
files_without none files = files
files_without (some path) files = remove_file path files

module _ {H : Type 0} where
  pub remove_overlay_lem :
      (path : Option String) (w : World H)
      → Runs (remove_overlay path) w (ok tt, record w { overlays = files_without path w.overlays })
  unfolding remove_overlay destroy_overlay
  remove_overlay_lem none w = record { at = refl }
  remove_overlay_lem (some path) w = record { at = refl }

  pub release_port_lem :
      (port : Option ℕ) (w : World H)
      → Runs (release_port port) w (ok tt, record w { ports = ports_without port w.ports })
  unfolding release_port release_vnc_port
  release_port_lem none w = record { at = refl }
  release_port_lem (some port) w = record { at = refl }

module _ {H : Type 0} (env : Env H) where
  -- Whatever the driver answers, `stop_domain` changes the hypervisor alone.
  pub stop_domain-host :
      (name : Option String) (force : Bool) (w : World H)
      → (r : Result (Unit {0})) × (h : H) × Runs
          (stop_domain env name force)
          w
          (r, record w { host = h })
  unfolding stop_domain
  stop_domain-host none force w = (ok tt, w.host, record { at = refl })
  stop_domain-host (some name) force w =
      shut_down
        (if force then env.libvirt.force_destroy name else env.libvirt.graceful_shutdown name)
    where
      shut_down :
          (m : Exec H (Unit {0}))
          → (r : Result (Unit {0})) × (h : H) × Runs
              (on_host m >> on_host (env.libvirt.undefine name))
              w
              (r, record w { host = h })
      shut_down m = elim (Result-cases (m w.host).0) [
        | inl (a, e) ↦ (
          _,
          _,
          Runs-bind-ok _ (on_host_lem m w e) (on_host_lem (env.libvirt.undefine name) _ refl),
        )
        | inr (x, e) ↦ (_, _, Runs-bind-err _ (on_host_lem m w e))
      ]

pub final-closed :
    (reason : String) (t : Time) (s : VmSession) → active (mark_stopped reason t s) ≡ false
final-closed reason t s = ground arith

module _ {H : Type 0} (env : Env H) (w : World H) (s : VmSession) (reason : String) (force : Bool)
    (loaded : IsLoaded w.sessions s) (open_session : active s ≡ true) where
  abbrev pub stop_time : Time
  stop_time = w.clock w.clock_reads

  abbrev pub after_mark : World H
  after_mark = record w { sessions = update_rows s.id (mark_state stopping) w.sessions }

  stopping-Preserving : Preserving (mark_state stopping) s
  stopping-Preserving = record { id = refl; user = refl; stays_closed = λ _. open_session }

  marked : Runs (save (mark_state stopping) s) w (ok (mark_state stopping s), after_mark)
  marked = save_lem w s (mark_state stopping) loaded stopping-Preserving

  stopped-Preserving : (r : VmSession) → Preserving (mark_stopped reason stop_time) r
  stopped-Preserving r = record {
    id = refl;
    user = refl;
    stays_closed = λ e. cc (final-closed reason stop_time r);
  }

  -- The rest of `stop_vm`, once libvirt has answered.
  pub stop_vm-ok :
      (h : H)
      → Runs
          (stop_domain env (given s.libvirt_domain_name) force)
          after_mark
          (ok tt, record after_mark { host = h })
      → Runs (stop_vm env s reason force) w (
        ok (mark_stopped reason stop_time s),
        record w {
          sessions =
              update_rows s.id
                (mark_stopped reason stop_time)
                (update_rows s.id (mark_state stopping) w.sessions);
          ports = ports_without s.vnc_port w.ports;
          overlays = files_without (given s.overlay_disk_path) w.overlays;
          host = h;
          clock_reads = suc w.clock_reads;
        },
      )
  unfolding stop_vm
  stop_vm-ok h domain_stopped =
      let same = λ (r : VmSession). refl {a = r.id} in
      let midway =
        save-IsLoaded (mark_state stopping) w.sessions s loaded stopping-Preserving same in
      let final = stopped-Preserving (mark_state stopping s) in
      Runs-bind-ok _ marked (
        Runs-bind-ok _ domain_stopped (
          Runs-bind-ok _ (remove_overlay_lem (given s.overlay_disk_path) _) (
            Runs-bind-ok _ (release_port_lem s.vnc_port _) (
              Runs-bind-ok _ (Runs-refl read_clock _) (
                Runs-bind-ok _ (save_lem _ _ (mark_stopped reason stop_time) midway final) (
                  refresh_lem _ _
                    (save-IsLoaded (mark_stopped reason stop_time) _ _ midway final same)))))))

  -- How a stop may end.
  abbrev pub Stops : Result VmSession × World H → Type 0
  Stops (ok s', w') =
      (s' ≡ mark_stopped reason stop_time s)
      × (w'.sessions ≡ update_rows s.id (mark_stopped reason stop_time) w.sessions)
      × (w'.ports ≡ ports_without s.vnc_port w.ports)
      × (w'.overlays ≡ files_without (given s.overlay_disk_path) w.overlays)
  Stops (err e, w') =
      (w'.sessions ≡ update_rows s.id (mark_state stopping) w.sessions)
      × (w'.ports ≡ w.ports)
      × (w'.overlays ≡ w.overlays)

  -- A stop of a stored active session, with whatever libvirt driver, either closes the session,
  -- removes its overlay and releases its port, or raises and leaves it `stopping` with the overlay
  -- and the port still reserved.
  pub stop_vm-Stops : Stops (stop_vm env s reason force w)
  unfolding stop_vm
  stop_vm-Stops = by_domain (stop_domain-host env (given s.libvirt_domain_name) force after_mark)
    where
      by_domain :
          (r : Result (Unit {0})) × (h : H) × Runs
              (stop_domain env (given s.libvirt_domain_name) force)
              after_mark
              (r, record after_mark { host = h })
          → Stops (stop_vm env s reason force w)
      by_domain (ok a, h, runs) = rw ((stop_vm-ok h runs).at) (
        refl,
        update-update s.id (mark_state stopping) (mark_stopped reason stop_time) w.sessions
            (λ r. refl),
        refl,
        refl,
      )
      by_domain (err e, h, runs) =
          rw ((Runs-bind-ok _ marked (Runs-bind-err _ runs)).at) (refl, refl, refl)
