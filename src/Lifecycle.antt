-- ===== src/Lifecycle.antt =====
-- backend/app/services/vm_lifecycle.py: launch, provision, stop, extend and record_activity over
-- the shared state.
pub mod Texts
pub mod Stop
pub mod Answering
pub mod Provision
pub mod Launch
pub mod Extend
pub mod Commits
pub mod Silent
use knpodly.Base.{
  ℕ, ℤ, pos, ◌+ℤ◌, leb_ℤ, String, Bool, true, false, ◌&&◌, Option, none, some, List, head?, length,
  where_rows, ◌==◌, str_eq, if◌then◌else◌,
}
use knpodly.Exec.{
  Exec, ok, err, pure, raise, gets, raise_if, on_error, ◌>>=◌, ◌>>◌, vm_limit_exceeded,
  os_unavailable, maintenance_active,
}
use knpodly.Text.{given, uuid_str, uuid_hex}
use knpodly.Models.{
  Uuid, Time, minutes, User, is_student, VmSession, VmState, queued, provisioning, running,
  stopping, stopped, expired, failed, OperatingSystem, is_available, VmLimitPolicy,
  MaintenanceWindow,
}
use knpodly.Config.{Settings}
use knpodly.Libvirt.{DomainInfo}
use knpodly.World.{
  World, Env, read_clock, draw_uuid, on_host, scalar_one_or_none, insert_session, save, refresh,
}
use knpodly.World.Tables.{active}
use knpodly.Policy.{get_active_policy}
use knpodly.Overlay.{create_overlay, destroy_overlay, allocate_vnc_port, release_vnc_port}
use knpodly.DomainXml.{render_domain_xml, random_mac}
use knpodly.Lifecycle.Texts.{domain_name, unavailable_text, maintenance_text}

-- The rows of `user_id` in an active state.
abbrev pub active_of : Uuid → List VmSession → List VmSession
active_of user_id = where_rows (λ s. s.user_id == user_id && active s)

abbrev pub new_session : Uuid → Time → User → OperatingSystem → VmLimitPolicy → Settings → VmSession
new_session id now user os_row policy settings = record {
  id = id;
  user_id = user.id;
  operating_system_id = os_row.id;
  libvirt_domain_name = none;
  overlay_disk_path = none;
  state = queued;
  vnc_port = none;
  websocket_token = none;
  ram_mb = os_row.default_ram_mb;
  vcpus = os_row.default_vcpus;
  network_policy = settings.lab_internet_access_default;
  started_at = none;
  expires_at = none;
  extension_count = pos 0;
  max_extensions = policy.max_extensions;
  last_activity_at = none;
  idle_warning_sent_at = none;
  stopped_at = none;
  stop_reason = none;
  created_at = now;
}

-- The assignments before each commit.
abbrev pub mark_state : VmState → VmSession → VmSession
mark_state state s = record s { state = state }

abbrev pub mark_running : String → String → ℕ → String → Time → Time → VmSession → VmSession
mark_running name path port token now expires_at s = record s {
  libvirt_domain_name = some name;
  overlay_disk_path = some path;
  vnc_port = some port;
  websocket_token = some token;
  state = running;
  started_at = some now;
  expires_at = some expires_at;
  last_activity_at = some now;
}

-- `VMState.expired if reason == "expired" else VMState.stopped`
abbrev pub final_state : String → VmState
final_state reason = if str_eq reason "expired" then expired else stopped

abbrev pub mark_stopped : String → Time → VmSession → VmSession
mark_stopped reason now s = record s {
  state = final_state reason;
  stopped_at = some now;
  stop_reason = some reason;
}

abbrev pub mark_extended : Time → ℤ → VmSession → VmSession
mark_extended expires_at count s = record s {
  expires_at = some expires_at;
  extension_count = count;
}

abbrev pub mark_activity : Time → VmSession → VmSession
mark_activity now s = record s { last_activity_at = some now; idle_warning_sent_at = none }

module _ {H : Type 0} where
  raise_maintenance : Option MaintenanceWindow → Exec (World H) (Unit {0})
  raise_maintenance none = pure tt
  raise_maintenance (some window) = raise (maintenance_active (maintenance_text window.message))

  raise_existing : Option VmSession → Exec (World H) (Unit {0})
  raise_existing none = pure tt
  raise_existing (some session) =
      raise (vm_limit_exceeded "Students may only run one VM at a time.")

  -- The checks under `if user.role == UserRole.student`.
  pub check_student : User → Exec (World H) (Unit {0})
  unfolding raise_maintenance raise_existing
  check_student user = do
    maintenance ← gets (λ w. head? (where_rows (λ m. m.is_active) w.windows))
    raise_maintenance maintenance
    rows ← gets (λ w. active_of user.id w.sessions)
    existing ← scalar_one_or_none rows
    raise_existing existing

  pub require_available : String → Option OperatingSystem → Exec (World H) OperatingSystem
  require_available os_slug none = raise (os_unavailable (unavailable_text os_slug))
  require_available os_slug (some row) =
      if is_available row.status
      then pure row
      else raise (os_unavailable (unavailable_text os_slug))

  pub stop_domain : Env H → Option String → Bool → Exec (World H) (Unit {0})
  stop_domain env none force = pure tt
  stop_domain env (some name) force = do
    on_host (if force then env.libvirt.force_destroy name else env.libvirt.graceful_shutdown name)
    on_host (env.libvirt.undefine name)

  pub remove_overlay : Option String → Exec (World H) (Unit {0})
  remove_overlay none = pure tt
  remove_overlay (some path) = destroy_overlay path

  pub release_port : Option ℕ → Exec (World H) (Unit {0})
  release_port none = pure tt
  release_port (some port) = release_vnc_port port

  -- `session.expires_at or datetime.now(timezone.utc)`
  pub expiry_or_now : Option Time → Exec (World H) Time
  expiry_or_now (some expires_at) = pure expires_at
  expiry_or_now none = read_clock

  module _ (env : Env H) where
    pub launch_vm : User → String → Exec (World H) VmSession
    unfolding check_student require_available
    launch_vm user os_slug = do
      if is_student user.role then check_student user else pure tt
      policy ← gets (get_active_policy env)
      total_active ← gets (λ w. where_rows active w.sessions)
      raise_if (leb_ℤ policy.max_concurrent_vms_total (pos (length total_active)))
          (vm_limit_exceeded "The lab is at maximum capacity right now. Please try again shortly.")
      rows ← gets (λ w. where_rows (λ o. str_eq o.slug os_slug) w.operating_systems)
      found ← scalar_one_or_none rows
      os_row ← require_available os_slug found
      id ← draw_uuid
      now ← read_clock
      let session = new_session id now user os_row policy env.settings
      insert_session session
      refresh session

    -- The arguments of `render_domain_xml`, rendered.
    domain_xml : VmSession → String → ℕ → Uuid → String
    domain_xml session overlay_path vnc_port mac_uuid = render_domain_xml (record {
      name = domain_name session.id;
      ram_mb = session.ram_mb;
      vcpus = session.vcpus;
      overlay_disk_path = overlay_path;
      vnc_port = vnc_port;
      network_bridge = env.settings.vm_network_bridge;
      vnc_listen_address = env.settings.vm_vnc_host;
      mac = random_mac mac_uuid;
    })

    pub define_and_start : VmSession → String → ℕ → Uuid → Exec H DomainInfo
    define_and_start session overlay_path vnc_port mac_uuid =
        env.libvirt.define_and_start (domain_xml session overlay_path vnc_port mac_uuid)
          (domain_name session.id)

    -- The `try` statement.
    pub start_domain : VmSession → String → ℕ → Uuid → Exec (World H) (Unit {0})
    start_domain session overlay_path vnc_port mac_uuid =
        on_error (on_host (define_and_start session overlay_path vnc_port mac_uuid) >> pure tt)
          (do save (mark_state failed) session; destroy_overlay overlay_path)

    pub provision_vm : VmSession → OperatingSystem → Exec (World H) VmSession
    unfolding start_domain
    provision_vm loaded os_row = do
      session ← save (mark_state provisioning) loaded
      policy ← gets (get_active_policy env)
      overlay_path ← create_overlay env os_row.base_image_path (uuid_str session.id)
      vnc_port ← allocate_vnc_port
      mac_uuid ← draw_uuid
      start_domain session overlay_path vnc_port mac_uuid
      now ← read_clock
      token ← draw_uuid
      let expires_at = now +ℤ minutes policy.max_session_minutes
      session' ←
          save
            (mark_running (domain_name session.id) overlay_path vnc_port (uuid_hex token) now
              expires_at)
            session
      refresh session'

    pub stop_vm : VmSession → String → Bool → Exec (World H) VmSession
    unfolding stop_domain remove_overlay release_port
    stop_vm loaded reason force = do
      session ← save (mark_state stopping) loaded
      stop_domain env (given session.libvirt_domain_name) force
      remove_overlay (given session.overlay_disk_path)
      release_port session.vnc_port
      now ← read_clock
      session' ← save (mark_stopped reason now) session
      refresh session'

    pub extend_session : VmSession → Exec (World H) VmSession
    unfolding expiry_or_now
    extend_session session = do
      raise_if (leb_ℤ session.max_extensions session.extension_count)
          (vm_limit_exceeded "No extensions remaining for this session.")
      policy ← gets (get_active_policy env)
      base ← expiry_or_now session.expires_at
      let expires_at = base +ℤ minutes policy.max_extension_minutes
      session' ← save (mark_extended expires_at (session.extension_count +ℤ pos 1)) session
      refresh session'

  pub record_activity : VmSession → Exec (World H) (Unit {0})
  record_activity session = do now ← read_clock; save (mark_activity now) session; pure tt
