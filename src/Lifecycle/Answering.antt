-- ===== src/Lifecycle/Answering.antt =====
-- `stop_vm` with a driver whose shutdown and undefine do not raise, as those of FakeLibvirtClient.
use knpodly.Base.{◌≡◌, refl, true, false, String, Option, none, some, str_eq, if◌then◌else◌}
use knpodly.Exec.{ok}
use knpodly.Exec.Runs.{Runs, Runs-bind-ok}
use knpodly.Text.{given}
use knpodly.Models.{Time, VmSession, stopping, stopped, expired}
use knpodly.Libvirt.{BaseLibvirtClient}
use knpodly.Libvirt.Fake.{fake_client}
use knpodly.World.{World, Env}
use knpodly.World.Tables.{active, update_rows}
use knpodly.World.Saves.{IsLoaded, on_host_lem, update-update}
use knpodly.Lifecycle.{mark_state, mark_stopped, stop_domain, stop_vm}
use knpodly.Lifecycle.Stop.{stop_vm-ok}

pub record Answers {H : Type 0} (libvirt : BaseLibvirtClient H) : Type 0 where
  pub shuts_down : (name : String) (h : H) → (libvirt.graceful_shutdown name h).0 ≡ ok tt
  pub undefines : (name : String) (h : H) → (libvirt.undefine name h).0 ≡ ok tt

pub fake_client-Answers : Answers fake_client
unfolding fake_client
fake_client-Answers = record { shuts_down = λ name h. refl; undefines = λ name h. refl }

module _ {H : Type 0} (env : Env H) (answers : Answers env.libvirt) where
  stop_domain-answers :
      (name : Option String) (w : World H)
      → (h : H) × Runs (stop_domain env name false) w (ok tt, record w { host = h })
  unfolding stop_domain
  stop_domain-answers none w = (w.host, record { at = refl })
  stop_domain-answers (some name) w = (
    _,
    Runs-bind-ok _
        (on_host_lem (env.libvirt.graceful_shutdown name) w (answers.shuts_down name w.host))
        (on_host_lem (env.libvirt.undefine name) _ (answers.undefines name _)),
  )

  -- What a stop at `now` makes of a session.
  abbrev pub closed_at : String → Time → VmSession → VmSession
  closed_at reason now s = record s {
    state = if str_eq reason "expired" then expired else stopped;
    stopped_at = some now;
    stop_reason = some reason;
  }

  -- With a driver whose shutdown and undefine do not raise, the stop of a stored active session
  -- goes through, returns it closed with its reason and the time, as expired if this is the reason,
  -- and changes nothing else of it and no other row.
  pub stop_vm-answers :
      (w : World H) (s : VmSession) (reason : String)
      → IsLoaded w.sessions s
      → active s ≡ true
      → let closed = closed_at reason (w.clock w.clock_reads) in
        (w' : World H) × Runs (stop_vm env s reason false) w (ok (closed s), w')
        × (w'.sessions ≡ update_rows s.id closed w.sessions)
  stop_vm-answers w s reason loaded open_session =
      let (h, runs) =
        stop_domain-answers (given s.libvirt_domain_name)
          (record w { sessions = update_rows s.id (mark_state stopping) w.sessions }) in
      (
        _,
        stop_vm-ok env w s reason false loaded open_session h runs,
        update-update s.id (mark_state stopping) (mark_stopped reason (w.clock w.clock_reads))
            w.sessions (λ r. refl),
      )
