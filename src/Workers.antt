-- ===== src/Workers.antt =====
-- The processes beside the API: backend/app/workers/vm_worker.py (the two arq jobs), scheduler.py
-- (one sweep over the running sessions) and gc_orphaned_vms.py (one run).
pub mod Sweep
pub mod Commits
pub mod Jobs
pub mod Resync
use knpodly.Base.{
  ℤ, ◌-ℤ◌, leb_ℤ, Bool, true, false, ◌&&◌, Option, none, some, List, head?, String, where_rows,
  ◌==◌, if◌then◌else◌,
}
use knpodly.Exec.{Exec, pure, gets, on_error, for_each, swallow, ◌>>=◌, ◌>>◌}
use knpodly.Text.{given}
use knpodly.Models.{
  Uuid, Time, minutes, VmSession, is_running, is_running_or_stopping, OperatingSystem,
  VmLimitPolicy,
}
use knpodly.Libvirt.{DomainInfo, DomainState, shutoff}
use knpodly.World.{
  World, Env, Event, vm_failed, vm_running, vm_stopped, vm_expired, vm_expiry_warning,
  vm_idle_timeout, vm_idle_warning, Job, provision_vm, teardown_vm, read_clock, on_host,
  publish_event, select_session, scalar_one, save,
}
use knpodly.Policy.{get_active_policy}
use knpodly.Lifecycle.{stop_vm}
use knpodly.Lifecycle

-- `a or b`, for a datetime
abbrev pub or_else : Option Time → Time → Time
or_else none t = t
or_else (some t) _ = t

abbrev pub is_unset : Option Time → Bool
is_unset none = true
is_unset (some _) = false

-- `expires_at and now >= expires_at`
abbrev pub is_due : Option Time → Time → Bool
is_due none now = false
is_due (some expires_at) now = leb_ℤ expires_at now

abbrev pub last_activity : VmSession → Time
last_activity s = or_else s.last_activity_at (or_else s.started_at s.created_at)

-- `idle_for >= timedelta(minutes=m)`
unfoldable pub idle_since : Time → ℤ → VmSession → Bool
idle_since now m s = leb_ℤ (minutes m) (now -ℤ last_activity s)

abbrev pub mark_warned : Time → VmSession → VmSession
mark_warned now s = record s { idle_warning_sent_at = some now }

abbrev is_shutoff : DomainState → Bool
is_shutoff shutoff = true
is_shutoff _ = false

-- `info is None or info.state == "shutoff"`
abbrev pub is_gone : Option DomainInfo → Bool
is_gone none = true
is_gone (some info) = is_shutoff info.state

module _ {H : Type 0} (env : Env H) where
  -- The body of the job once the session is known.
  provision_found : Uuid → Option VmSession → Exec (World H) (Unit {0})
  provision_found session_id none = pure tt
  provision_found session_id (some session) = do
    rows ← gets (λ w. where_rows (λ o. o.id == session.operating_system_id) w.operating_systems)
    os_row ← scalar_one rows
    session' ←
        on_error (Lifecycle.provision_vm env session os_row)
          (publish_event (vm_failed session_id session.user_id))
    publish_event (vm_running session'.id session'.user_id session'.expires_at)

  pub provision_job : Uuid → Exec (World H) (Unit {0})
  unfolding provision_found
  provision_job session_id = do
    session ← select_session session_id
    provision_found session_id session

  teardown_found : Uuid → String → Bool → Option VmSession → Exec (World H) (Unit {0})
  teardown_found session_id reason force none = pure tt
  teardown_found session_id reason force (some session) = do
    stop_vm env session reason force
    publish_event (vm_stopped session_id session.user_id reason)

  pub teardown_job : Uuid → String → Bool → Exec (World H) (Unit {0})
  unfolding teardown_found
  teardown_job session_id reason force = do
    session ← select_session session_id
    teardown_found session_id reason force session

  -- `WorkerSettings.functions`
  pub run_job : Job → Exec (World H) (Unit {0})
  run_job (provision_vm session_id) = provision_job session_id
  run_job (teardown_vm session_id reason force) = teardown_job session_id reason force

  -- The warning before the end of a session.
  pub warn_expiry : Time → VmSession → Option Time → Exec (World H) (Unit {0})
  warn_expiry now s none = pure tt
  warn_expiry now s (some expires_at) =
      let warn_at = expires_at -ℤ minutes env.settings.session_expiry_warning_minutes in
      if leb_ℤ warn_at now && is_unset s.idle_warning_sent_at
      then publish_event (vm_expiry_warning s.id s.user_id expires_at)
      else pure tt

  -- `stop_vm`, then the event.
  pub end_session : VmSession → String → Event → Exec (World H) (Unit {0})
  end_session s reason event = do stop_vm env s reason false; publish_event event

  pub check_idle : Time → VmLimitPolicy → VmSession → Exec (World H) (Unit {0})
  unfolding end_session
  check_idle now policy s =
      if idle_since now policy.idle_timeout_minutes s
      then end_session s "idle_timeout" (vm_idle_timeout s.id s.user_id)
      else if idle_since now policy.idle_warning_minutes s && is_unset s.idle_warning_sent_at
      then save (mark_warned now) s >> publish_event (vm_idle_warning s.id s.user_id)
      else pure tt

  -- The body of the loop over the running sessions.
  pub check_session : Time → VmLimitPolicy → VmSession → Exec (World H) (Unit {0})
  unfolding end_session warn_expiry check_idle
  check_session now policy s =
      if is_due s.expires_at now
      then end_session s "expired" (vm_expired s.id s.user_id)
      else warn_expiry now s s.expires_at >> check_idle now policy s

  pub check_expired_and_idle_sessions : Exec (World H) (Unit {0})
  unfolding check_session
  check_expired_and_idle_sessions = do
    now ← read_clock
    policy ← gets (get_active_policy env)
    sessions ← gets (λ w. where_rows (λ s. is_running s.state) w.sessions)
    for_each (check_session now policy) sessions

  -- A round of the endless loop in `scheduler.main`, up to the sleep.
  pub sweep_round : Exec (World H) (Unit {0})
  sweep_round = swallow check_expired_and_idle_sessions

  collect_named : VmSession → Option String → Exec (World H) (Unit {0})
  collect_named s none = pure tt
  collect_named s (some name) = do
    info ← on_host (env.libvirt.get_domain_info name)
    if is_gone info then stop_vm env s "error" false >> pure tt else pure tt

  -- The body of the loop in `gc_orphaned_vms.main`.
  collect : VmSession → Exec (World H) (Unit {0})
  unfolding collect_named
  collect s = collect_named s (given s.libvirt_domain_name)

  pub collect_orphans : Exec (World H) (Unit {0})
  unfolding collect
  collect_orphans = do
    sessions ← gets (λ w. where_rows (λ s. is_running_or_stopping s.state) w.sessions)
    for_each collect sessions
