-- ===== src/Models/Sessions.antt =====
-- backend/app/models/vm_session.py
use knpodly.Base.{ℕ, ℤ, String, Bool, true, false, Option}
use knpodly.Models.Clock.{Uuid, Time}

pub data VmState : Type 0 where
  queued provisioning running stopping stopped expired failed destroyed : VmState

-- `state.in_([queued, provisioning, running, stopping])`, the list that launch_vm, the routes and
-- the partial unique index share.
abbrev pub is_active : VmState → Bool
is_active queued = true
is_active provisioning = true
is_active running = true
is_active stopping = true
is_active _ = false

abbrev pub is_running : VmState → Bool
is_running running = true
is_running _ = false

-- `state.in_([running, stopping])`
abbrev pub is_running_or_stopping : VmState → Bool
is_running_or_stopping running = true
is_running_or_stopping stopping = true
is_running_or_stopping _ = false

pub record VmSession : Type 0 where
  pub id : Uuid
  pub user_id : Uuid
  pub operating_system_id : Uuid
  pub libvirt_domain_name : Option String
  pub overlay_disk_path : Option String
  pub state : VmState
  pub vnc_port : Option ℕ
  pub websocket_token : Option String
  pub ram_mb : ℤ
  pub vcpus : ℤ
  pub network_policy : String
  pub started_at : Option Time
  pub expires_at : Option Time
  pub extension_count : ℤ
  pub max_extensions : ℤ
  pub last_activity_at : Option Time
  pub idle_warning_sent_at : Option Time
  pub stopped_at : Option Time
  pub stop_reason : Option String
  pub created_at : Time
