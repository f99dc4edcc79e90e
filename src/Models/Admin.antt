-- ===== src/Models/Admin.antt =====
-- backend/app/models/vm_limit_policy.py, maintenance_window.py and audit_log.py.
-- An attribute that the database fills in is `none` on an object that was never flushed.
use knpodly.Base.{ℤ, String, Bool, true, false, Option, some, List}
use knpodly.Models.Clock.{Uuid, Time}
use knpodly.Models.Users.{UserRole}

pub record VmLimitPolicy : Type 0 where
  pub id : Option Uuid
  pub name : String
  pub max_session_minutes : ℤ
  pub max_extension_minutes : ℤ
  pub max_extensions : ℤ
  pub idle_warning_minutes : ℤ
  pub idle_timeout_minutes : ℤ
  pub max_concurrent_vms_total : ℤ
  pub is_active : Option Bool
  pub updated_by : Option Uuid
  pub updated_at : Option Time

pub record MaintenanceWindow : Type 0 where
  pub enabled_by : Option Uuid
  pub message : Option String
  pub is_active : Bool
  pub started_at : Time
  pub ended_at : Option Time

-- A value in the `metadata` of an audit row.
pub data JsonValue : Type 0 where
  text : String → JsonValue
  number : ℤ → JsonValue

pub record AuditLog : Type 0 where
  pub actor_id : Option Uuid
  pub actor_role : Option UserRole
  pub action : String
  pub target_type : Option String
  pub target_id : Option String
  pub meta : Option (List (String × JsonValue))
  pub ip_address : Option String

-- SQL's `column IS TRUE`
abbrev pub is_true : Option Bool → Bool
is_true (some true) = true
is_true _ = false
