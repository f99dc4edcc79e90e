-- ===== src/Api/Vms.antt =====
-- backend/app/api/v1/routers/vms.py and the response of app/schemas/vm_session.py.
pub mod Access
pub mod Launch
pub mod Mine
pub mod Commits
use Prim.Native.String.{◌++◌}
use knpodly.Base.{
  ℤ, String, Bool, true, false, not, ◌&&◌, Option, none, some, List, [], ◌∷◌, map, where_rows, ◌==◌,
  if◌then◌else◌,
}
use knpodly.Exec.{
  Exec, Error, vm_limit_exceeded, os_unavailable, maintenance_active, http_exception, pure, raise,
  gets, raise_if, map_error, ◌>>=◌, ◌>>◌,
}
use knpodly.Text.{given, uuid_str}
use knpodly.Models.{
  Uuid, Time, User, is_student, VmSession, VmState, is_running, AuditLog, JsonValue, text,
}
use knpodly.Config.{Settings}
use knpodly.World.{
  World, Env, provision_vm, enqueue_job, record_audit, select_session, scalar_one_or_none,
}
use knpodly.World.Tables.{active}
use knpodly.Lifecycle.{active_of, launch_vm, stop_vm, extend_session, record_activity}
use knpodly.Api.{require_lecturer}

pub record VmSessionOut : Type 0 where
  pub id : Uuid
  pub user_id : Uuid
  pub operating_system_id : Uuid
  pub state : VmState
  pub ram_mb : ℤ
  pub vcpus : ℤ
  pub network_policy : String
  pub started_at : Option Time
  pub expires_at : Option Time
  pub extension_count : ℤ
  pub max_extensions : ℤ
  pub console_url : Option String

abbrev console_url_at : Settings → Option String → Option String
console_url_at settings none = none
console_url_at settings (some token) = some (settings.novnc_public_base_url ++ "/" ++ token)

unfoldable pub with_console_url : Settings → VmSession → VmSessionOut
with_console_url settings session = record {
  id = session.id;
  user_id = session.user_id;
  operating_system_id = session.operating_system_id;
  state = session.state;
  ram_mb = session.ram_mb;
  vcpus = session.vcpus;
  network_policy = session.network_policy;
  started_at = session.started_at;
  expires_at = session.expires_at;
  extension_count = session.extension_count;
  max_extensions = session.max_extensions;
  console_url =
      if is_running session.state
      then console_url_at settings (given session.websocket_token)
      else none;
}

-- The audit row of an action on a session.
abbrev pub session_audit : User → String → Uuid → Option (List (String × JsonValue)) → AuditLog
session_audit user action session_id meta = record {
  actor_id = some user.id;
  actor_role = some user.role;
  action = action;
  target_type = some "vm_session";
  target_id = some (uuid_str session_id);
  meta = meta;
  ip_address = none;
}

-- The `except` clauses of the launch.
abbrev pub launch_error : Error → Error
launch_error (vm_limit_exceeded detail) = http_exception 409 detail
launch_error (os_unavailable detail) = http_exception 400 detail
launch_error (maintenance_active detail) = http_exception 503 detail
launch_error e = e

-- The `except` clause of the extension.
abbrev pub extend_error : Error → Error
extend_error (vm_limit_exceeded detail) = http_exception 409 detail
extend_error e = e

module _ {H : Type 0} where
  pub require_found : Option VmSession → Exec (World H) VmSession
  require_found none = raise (http_exception 404 "Session not found")
  require_found (some session) = pure session

  pub get_owned_or_403 : User → Uuid → Exec (World H) VmSession
  unfolding require_found
  get_owned_or_403 user session_id = do
    found ← select_session session_id
    session ← require_found found
    raise_if (not (session.user_id == user.id) && is_student user.role)
        (http_exception 403 "Not your VM")
    pure session

  module _ (env : Env H) where
    pub post_launch : User → String → Exec (World H) VmSessionOut
    post_launch user os_slug = do
      session ← map_error launch_error (launch_vm env user os_slug)
      enqueue_job (provision_vm session.id)
      record_audit (
          session_audit user "vm.launch_requested" session.id
            (some (("os_slug", text os_slug) ∷ [])))
      pure (with_console_url env.settings session)

    pub get_my_active_vm : User → Exec (World H) (Option VmSessionOut)
    get_my_active_vm user = do
      rows ← gets (λ w. active_of user.id w.sessions)
      session ← scalar_one_or_none rows
      pure (elim session [ none ↦ none | some s ↦ some (with_console_url env.settings s) ])

    pub list_all_vms : User → Exec (World H) (List VmSessionOut)
    list_all_vms user = do
      require_lecturer user
      sessions ← gets (λ w. where_rows active w.sessions)
      pure (map (with_console_url env.settings) sessions)

    pub post_stop : User → Uuid → Exec (World H) VmSessionOut
    unfolding get_owned_or_403
    post_stop user session_id = do
      session ← get_owned_or_403 user session_id
      session' ← stop_vm env session "user_stop" false
      record_audit (session_audit user "vm.stopped" session'.id none)
      pure (with_console_url env.settings session')

    pub post_force_stop : User → Uuid → Exec (World H) VmSessionOut
    post_force_stop user session_id = do
      require_lecturer user
      found ← select_session session_id
      session ← require_found found
      session' ← stop_vm env session "force_stop" true
      record_audit (session_audit user "vm.force_stopped" session'.id none)
      pure (with_console_url env.settings session')

    pub post_extend : User → Uuid → Exec (World H) VmSessionOut
    post_extend user session_id = do
      session ← get_owned_or_403 user session_id
      session' ← map_error extend_error (extend_session env session)
      record_audit (session_audit user "vm.extended" session'.id none)
      pure (with_console_url env.settings session')

  pub report_activity : User → Uuid → Exec (World H) (Unit {0})
  report_activity user session_id = do
    session ← get_owned_or_403 user session_id
    record_activity session
