-- ===== src/Workers/Jobs.antt =====
-- The job that provisions a session, in every case.
use knpodly.Base.{
  ℕ, ◌≤◌, ◌<◌, contains, ◌≡◌, refl, sym, ap, ◌∙◌, true, false, inl, inr, none, some, [], ◌∷◌, ◌++◌,
  where_rows, ◌==◌,
}
use knpodly.Exec.{Error, Result, ok, err, gets, ◌>>=◌, on_error}
use knpodly.Exec.Runs.{Runs-refl, Runs-bind-ok, Runs-on_error-ok, Runs-on_error-err}
use knpodly.Exec.Checks.{ok-bind, err-bind}
use knpodly.Models.{VmSession, VmState, running, provisioning, failed, OperatingSystem, is_running}
use knpodly.World.{World, Env, vm_failed, vm_running, publish_event}
use knpodly.World.Tables.{active, update_rows, find_session}
use knpodly.World.Tables.Laws.{find-update_self}
use knpodly.World.Saves.{IsLoaded}
use knpodly.Lifecycle.Provision.{Provisions, provision_vm-Provisions}
use mathlib.Core.Path.{subst}
use knpodly.Text.{uuid_str}
use knpodly.Overlay.{vnc_port_min, vnc_port_max}
use knpodly.Overlay.Names.{overlay_file}
use knpodly.Lifecycle.Provision.Accepts.{Starts, provision_vm-accepts}
use knpodly.Lifecycle.Silent.{provision_vm-Silent}
use knpodly.Lifecycle
use knpodly.Api.Vms.Access.{select_session-found}
use knpodly.Workers.{provision_job, provision_found}

module _ {H : Type 0} (env : Env H) (w : World H) (s : VmSession) (os : OperatingSystem)
    (loaded : IsLoaded w.sessions s) (open_session : active s ≡ true)
    (image : where_rows (λ o. o.id == s.operating_system_id) w.operating_systems ≡ os ∷ []) where
  -- The event that is published is the one that the row bears out.
  abbrev pub Publishes : Result (Unit {0}) × World H → Type 0
  Publishes (ok _, v) =
      (row : VmSession) × (find_session s.id v.sessions ≡ some row)
      × (row.state ≡ running)
      × (v.events ≡ w.events ++ vm_running s.id s.user_id row.expires_at ∷ [])
  Publishes (err e, v) =
      (row : VmSession) × (find_session s.id v.sessions ≡ some row)
      × (is_running row.state ≡ false)
      × (v.events ≡ w.events ++ vm_failed s.id s.user_id ∷ [])

  -- The row of the session after its state was set.
  marked :
      (state : VmState) (v : World H)
      → v.sessions ≡ update_rows s.id (Lifecycle.mark_state state) w.sessions
      → find_session s.id v.sessions ≡ some (Lifecycle.mark_state state s)
  marked state v e =
      rw e
        (find-update_self s.id (Lifecycle.mark_state state) (λ r. refl) w.sessions s loaded.stored)

  failed-Publishes :
      (e : Error) (v : World H)
      → Provisions env w s os loaded open_session (err e, v)
      → v.events ≡ w.events
      → Publishes (err e, record v { events = v.events ++ vm_failed s.id s.user_id ∷ [] })
  failed-Publishes e v (inl (stderr, fails, why, rows, ports, files)) quiet =
      (Lifecycle.mark_state provisioning s, marked provisioning v rows, refl, rw quiet refl)
  failed-Publishes e v (inr (inl (taken, rows, ports, files))) quiet =
      (Lifecycle.mark_state provisioning s, marked provisioning v rows, refl, rw quiet refl)
  failed-Publishes e v (inr (inr (port, fails, rows, free, ports, files))) quiet =
      (Lifecycle.mark_state failed s, marked failed v rows, refl, rw quiet refl)

  run-Publishes :
      (r : Result VmSession × World H)
      → Lifecycle.provision_vm env s os w ≡ r
      → Provisions env w s os loaded open_session r
      → r.1.events ≡ w.events
      → Publishes (
          (do
            session' ←
                on_error
                  (Lifecycle.provision_vm env s os)
                  (publish_event (vm_failed s.id s.user_id))
            publish_event (vm_running session'.id session'.user_id session'.expires_at))
            w)
  run-Publishes (err e, v) runs ends quiet =
      err-bind Publishes _ {e = e}
        (Runs-on_error-err {t = v} (record { at = runs }) (record { at = refl }))
        (failed-Publishes e v ends quiet)
  run-Publishes (ok s', v) runs (port, token, done) quiet =
      ok-bind Publishes _ {t = v} {a = s'} (Runs-on_error-ok _ (record { at = runs })) (
        s',
        rw (done.stored) (find-update_self s.id _ (λ r. refl) w.sessions s loaded.stored)
            ∙ ap some (sym done.session),
        ap (λ (r : VmSession). r.state) done.session,
        rw quiet (
            ap (λ (r : VmSession). w.events ++ vm_running r.id r.user_id s'.expires_at ∷ [])
              done.session),
      )

  -- The job of a stored active session whose image is in the catalogue publishes exactly one event:
  -- if it returns, that the session is running, with the expiry that the row then has, and the row
  -- is running; if it raises, that it failed, and the row is not running.
  pub provision_job-Publishes : Publishes (provision_job env s.id w)
  unfolding provision_job provision_found
  provision_job-Publishes =
      ok-bind Publishes _ (select_session-found w s.id s loaded.indexed loaded.stored) (
        ok-bind Publishes _
          (Runs-refl
            (gets (λ w. where_rows (λ o. o.id == s.operating_system_id) w.operating_systems)) w)
          (ok-bind Publishes _ {t = w} {a = os} (record { at = rw image refl })
            (run-Publishes _ refl (provision_vm-Provisions env w s os loaded open_session)
              ((provision_vm-Silent w.events env s os).at w refl))))

  -- The job of a stored active session whose image is in the catalogue goes through: with a driver that
  -- starts every domain, a qemu-img that writes the overlay and a port of the range that is free, it returns, the row of the session is running, and
  -- one event says so, with the expiry of the row.
  pub provision_job-accepts :
      (q : ℕ)
      → Starts env.libvirt
      → vnc_port_min ≤ q
      → q < vnc_port_max
      → contains q w.ports ≡ false
      → env.qemu_img_create w.overlays os.base_image_path
          (overlay_file env.settings.vm_overlay_path (uuid_str s.id))
        ≡ none
      → (v : World H) × (row : VmSession) × (provision_job env s.id w ≡ (ok tt, v))
        × (find_session s.id v.sessions ≡ some row)
        × (row.state ≡ running)
        × (v.events ≡ w.events ++ vm_running s.id s.user_id row.expires_at ∷ [])
  unfolding provision_job provision_found
  provision_job-accepts q driver low high free writes =
      let (s', v, runs) =
        provision_vm-accepts env w s os loaded open_session driver q low high free writes in
      let event = vm_running s'.id s'.user_id s'.expires_at in
      let v' : World H = record v { events = v.events ++ event ∷ [] } in
      let returns : provision_job env s.id w ≡ (ok tt, v') =
        (Runs-bind-ok _ (select_session-found w s.id s loaded.indexed loaded.stored) (
          Runs-bind-ok _
            (Runs-refl
              (gets (λ w. where_rows (λ o. o.id == s.operating_system_id) w.operating_systems)) w)
            (Runs-bind-ok _ {t = w} {a = os} (record { at = rw image refl })
              (Runs-bind-ok _ {t = v} {a = s'} (Runs-on_error-ok _ (record { at = runs }))
                (record { at = refl }))))).at in
      let (row, found, state, told) = subst Publishes returns provision_job-Publishes in
      (v', row, returns, found, state, told)
