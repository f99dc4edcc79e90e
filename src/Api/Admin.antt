-- ===== src/Api/Admin.antt =====
-- backend/app/api/v1/routers/admin.py, with the schemas of app/schemas/admin.py: host statistics,
-- maintenance mode, and the limits for VMs.
pub mod Maintenance
pub mod Fields
pub mod Rows
pub mod Limits
use knpodly.Base.{
  ℕ, suc, ℤ, ltb_ℤ, eq_ℤ, ◌+◌, String, Bool, true, false, not, ◌&&◌, ◌||◌, Option, none, some, List,
  [], ◌∷◌, ◌++◌, head?, length, where_rows, ◌==◌, if◌then◌else◌,
}
use knpodly.Exec.{
  Exec, ok, err, http_exception, integrity_error, invalid_request, response_validation_error, pure,
  raise, gets, modify, raise_if, ◌>>=◌, ◌>>◌,
}
use knpodly.Text.{uuid_str}
use knpodly.Models.{
  Uuid, Time, User, VmSession, VmState, queued, is_running, VmLimitPolicy, MaintenanceWindow,
  AuditLog, JsonValue, text, number,
}
use knpodly.Libvirt.{HostStats}
use knpodly.World.{
  World, Env, read_clock, on_host, record_audit, publish_event, maintenance_enabled,
  maintenance_disabled,
}
use knpodly.Policy.{active_policies, get_active_policy}
use knpodly.Api.{require_lecturer}
use knpodly.Api.Admin.Fields.{
  VmLimitPolicyOut, Field, unset, null, value, VmLimitPolicyUpdate, patched, is_null, differs,
  has_null, same_id, has_change, patch_policy, entry, updates, update_policies, find_policy, id_str,
}

pub record MaintenanceStatusOut : Type 0 where
  pub is_active : Bool
  pub message : Option String
  pub started_at : Option Time

pub record HostStatsOut : Type 0 where
  pub host : HostStats
  pub running_vms : ℕ
  pub queued_vms : ℕ

abbrev is_queued : VmState → Bool
is_queued queued = true
is_queued _ = false

abbrev pub admin_audit :
    User → String → Option String → Option String → Option (List (String × JsonValue)) → AuditLog
admin_audit user action target_type target_id meta = record {
  actor_id = some user.id;
  actor_role = some user.role;
  action = action;
  target_type = target_type;
  target_id = target_id;
  meta = meta;
  ip_address = none;
}

-- `.order_by(desc(started_at))` and `.first()`; windows of one start stay in the order of the table
latest : MaintenanceWindow → List MaintenanceWindow → MaintenanceWindow
latest best [] = best
latest best (m ∷ ms) = latest (if ltb_ℤ best.started_at m.started_at then m else best) ms

unfoldable pub first_by_start : List MaintenanceWindow → Option MaintenanceWindow
unfolding latest
first_by_start [] = none
first_by_start (m ∷ ms) = some (latest m ms)

abbrev pub status_out : Option MaintenanceWindow → MaintenanceStatusOut
status_out none = record { is_active = false; message = none; started_at = none }
status_out (some active) = record {
  is_active = true;
  message = active.message;
  started_at = some active.started_at;
}

abbrev pub ended : Time → MaintenanceWindow → MaintenanceWindow
ended now m = record m { is_active = false; ended_at = some now }

-- `for w in stale: w.is_active = False; w.ended_at = datetime.now(timezone.utc)`, where each round
-- reads the clock again; `n` readings went before.
unfoldable pub close_windows : (ℕ → Time) → ℕ → List MaintenanceWindow → List MaintenanceWindow
close_windows clock n [] = []
close_windows clock n (m ∷ ms) =
    (if m.is_active then ended (clock n) m else m)
    ∷ close_windows clock (if m.is_active then suc n else n) ms

abbrev pub new_window : User → String → Time → MaintenanceWindow
new_window user message now = record {
  enabled_by = some user.id;
  message = some message;
  is_active = true;
  started_at = now;
  ended_at = none;
}

module _ {H : Type 0} where
  pub get_maintenance_status : User → Exec (World H) MaintenanceStatusOut
  get_maintenance_status user = do
    require_lecturer user
    active ← gets (λ w. first_by_start (where_rows (λ m. m.is_active) w.windows))
    pure (status_out active)

  -- The rows that are active are closed, one reading of the clock for each.
  close_active : Exec (World H) (Unit {0})
  close_active w = (
    ok tt,
    record w {
      windows = close_windows w.clock w.clock_reads w.windows;
      clock_reads = w.clock_reads + length (where_rows (λ m. m.is_active) w.windows);
    },
  )

  -- The closed rows and the new one are committed together; `started_at` is the database's now().
  pub enable_maintenance : User → String → Exec (World H) (Unit {0})
  unfolding close_active
  enable_maintenance user message = do
    require_lecturer user
    close_active
    now ← read_clock
    modify (λ w. record w { windows = w.windows ++ new_window user message now ∷ [] })
    record_audit
        (admin_audit user "maintenance.enabled" none none (some (("message", text message) ∷ [])))
    publish_event (maintenance_enabled message)

  pub disable_maintenance : User → Exec (World H) (Unit {0})
  unfolding close_active
  disable_maintenance user = do
    require_lecturer user
    close_active
    record_audit (admin_audit user "maintenance.disabled" none none none)
    publish_event maintenance_disabled

  -- `VMLimitPolicyOut.model_validate(policy)`: a policy that was never stored has no `updated_at`.
  pub policy_out : VmLimitPolicy → Option Time → Exec (World H) VmLimitPolicyOut
  policy_out p none = raise response_validation_error
  policy_out p (some updated_at) = pure (record {
    name = p.name;
    max_session_minutes = p.max_session_minutes;
    max_extension_minutes = p.max_extension_minutes;
    max_extensions = p.max_extensions;
    idle_warning_minutes = p.idle_warning_minutes;
    idle_timeout_minutes = p.idle_timeout_minutes;
    max_concurrent_vms_total = p.max_concurrent_vms_total;
    updated_at = updated_at;
  })

  require_policy : Option VmLimitPolicy → Exec (World H) VmLimitPolicy
  require_policy none = raise (http_exception 404 "No active policy row found")
  require_policy (some policy) = pure policy

  -- `await db.commit()` after the assignments; no column takes a null.
  save_policy : User → VmLimitPolicyUpdate → VmLimitPolicy → Exec (World H) (Unit {0})
  save_policy user payload policy =
      if has_null payload
      then raise integrity_error
      else if has_change user payload policy
      then (do
        now ← read_clock
        modify (λ w. record w {
          policies = update_policies policy.id (patch_policy user payload now) w.policies;
        }))
      else pure tt

  -- `await db.refresh(policy)`
  refresh_policy : Option Uuid → Exec (World H) VmLimitPolicy
  refresh_policy id w = elim (find_policy id w.policies) [
    | none ↦ (err invalid_request, w)
    | some policy ↦ (ok policy, w)
  ]

  pub update_vm_limit_policy : User → VmLimitPolicyUpdate → Exec (World H) VmLimitPolicyOut
  unfolding require_policy save_policy refresh_policy policy_out updates
  update_vm_limit_policy user payload = do
    require_lecturer user
    found ← gets (λ w. head? (active_policies w.policies))
    policy ← require_policy found
    save_policy user payload policy
    policy' ← refresh_policy policy.id
    record_audit (
        admin_audit user "vm_limit_policy.updated" (some "vm_limit_policy")
          (some (id_str policy'.id)) (some (updates payload)))
    policy_out policy' policy'.updated_at

  module _ (env : Env H) where
    pub get_vm_limit_policy : User → Exec (World H) VmLimitPolicyOut
    unfolding policy_out
    get_vm_limit_policy user = do
      require_lecturer user
      policy ← gets (get_active_policy env)
      policy_out policy policy.updated_at

    pub host_stats : User → Exec (World H) HostStatsOut
    host_stats user = do
      require_lecturer user
      stats ← on_host env.libvirt.host_stats
      running_count ← gets (λ w. length (where_rows (λ s. is_running s.state) w.sessions))
      queued_count ← gets (λ w. length (where_rows (λ s. is_queued s.state) w.sessions))
      pure (record { host = stats; running_vms = running_count; queued_vms = queued_count })
