-- ===== src/World.antt =====
-- The state that the processes of the backend share: the tables of the database, the sets,
-- counters and queues in Redis, the overlay directory, the image files and the hypervisor. The clock and the source of UUIDs are
-- streams; each reading takes the next value.
pub mod Tables
pub mod Saves
pub mod Commits
pub mod Accounts
use Tables.{update_rows, index_ok, find_session}
use knpodly.Base.{
  ℕ, suc, String, Bool, true, false, Option, none, some, List, [], ◌∷◌, ◌++◌, if◌then◌else◌, ◌==◌,
  where_rows,
}
use knpodly.Exec.{
  Exec, ok, err, integrity_error, invalid_request, multiple_results_found, no_result_found, raise,
  pure, gets, ◌>>=◌,
}
use knpodly.Models.{
  Uuid, Time, User, UserRole, VmSession, OperatingSystem, VmLimitPolicy, MaintenanceWindow,
  AuditLog,
}
use knpodly.Config.{Settings}
use knpodly.Python.{Builtins}
use knpodly.Security.{Crypto}
use knpodly.RateLimit.{Counters}
use knpodly.Libvirt.{BaseLibvirtClient}

-- The messages of `redis_bus.publish_event`, by their type and data.
pub data Event : Type 0 where
  vm_failed vm_expired vm_idle_timeout vm_idle_warning : (session_id user_id : Uuid) → Event
  vm_running : (session_id user_id : Uuid) → Option Time → Event
  vm_expiry_warning : (session_id user_id : Uuid) → Time → Event
  vm_stopped : (session_id user_id : Uuid) → String → Event
  maintenance_enabled : String → Event
  maintenance_disabled : Event
  catalogue_resynced : ℕ → Event

-- The jobs of the arq queue. `uuid.UUID(str(id))` is `id`, so a job holds the id.
pub data Job : Type 0 where
  provision_vm : Uuid → Job
  teardown_vm : Uuid → String → Bool → Job

pub record World (H : Type 0) : Type 0 where
  pub users : List User
  pub sessions : List VmSession
  pub operating_systems : List OperatingSystem
  pub policies : List VmLimitPolicy
  pub windows : List MaintenanceWindow
  pub audit_logs : List AuditLog
  pub ports : List ℕ
  pub events : List Event
  pub jobs : List Job
  pub overlays : List String
  -- the sub-directories of the image directory, if it is there
  pub image_folders : Option (List String)
  -- the files under the image and the icon directory, by path
  pub files : List (String × List ℕ)
  pub login_attempts : Counters
  pub host : H
  pub clock : ℕ → Time
  pub clock_reads : ℕ
  pub uuids : ℕ → Uuid
  pub uuid_draws : ℕ

-- What a process is started with: its settings, its libvirt driver and `qemu-img`, which is given
-- the files that exist, the base image and the overlay, and returns its error output, if it fails.
pub record Env (H : Type 0) : Type 0 where
  pub settings : Settings
  pub libvirt : BaseLibvirtClient H
  pub builtins : Builtins
  pub crypto : Crypto
  pub qemu_img_create : List String → Option String → String → Option String

module _ {H : Type 0} where
  -- `datetime.now(timezone.utc)`
  abbrev pub read_clock : Exec (World H) Time
  read_clock w = (ok (w.clock w.clock_reads), record w { clock_reads = suc w.clock_reads })

  -- `uuid.uuid4()`
  abbrev pub draw_uuid : Exec (World H) Uuid
  draw_uuid w = (ok (w.uuids w.uuid_draws), record w { uuid_draws = suc w.uuid_draws })

  abbrev pub on_host : {A : Type 0} → Exec H A → Exec (World H) A
  on_host m w = let (r, h) = m w.host in (r, record w { host = h })

  abbrev pub on_counters : {A : Type 0} → Exec Counters A → Exec (World H) A
  on_counters m w = let (r, c) = m w.login_attempts in (r, record w { login_attempts = c })

  abbrev pub publish_event : Event → Exec (World H) (Unit {0})
  publish_event e w = (ok tt, record w { events = w.events ++ e ∷ [] })

  abbrev pub enqueue_job : Job → Exec (World H) (Unit {0})
  enqueue_job j w = (ok tt, record w { jobs = w.jobs ++ j ∷ [] })

  -- `audit.record`
  abbrev pub record_audit : AuditLog → Exec (World H) (Unit {0})
  record_audit entry w = (ok tt, record w { audit_logs = w.audit_logs ++ entry ∷ [] })

  -- `result.scalar_one_or_none()`
  abbrev pub scalar_one_or_none : {A : Type 0} → List A → Exec (World H) (Option A)
  scalar_one_or_none [] = pure none
  scalar_one_or_none (x ∷ []) = pure (some x)
  scalar_one_or_none (x ∷ y ∷ rows) = raise multiple_results_found

  -- `result.scalar_one()`
  abbrev pub scalar_one : {A : Type 0} → List A → Exec (World H) A
  scalar_one [] = raise no_result_found
  scalar_one (x ∷ []) = pure x
  scalar_one (x ∷ y ∷ rows) = raise multiple_results_found

  -- `select(VMSession).where(VMSession.id == id)`, for at most one row
  abbrev pub select_session : Uuid → Exec (World H) (Option VmSession)
  select_session id = gets (λ w. where_rows (λ s. s.id == id) w.sessions) >>= scalar_one_or_none

  -- `db.add(session); await db.commit()`. The database refuses rows that break an index.
  unfoldable pub insert_session : VmSession → Exec (World H) (Unit {0})
  insert_session s w =
      if index_ok (w.sessions ++ s ∷ [])
      then (ok tt, record w { sessions = w.sessions ++ s ∷ [] })
      else (err integrity_error, w)

  -- Assignments to a loaded row, and `await db.commit()`. The UPDATE names the changed columns
  -- alone, so the stored row gets the same change as the object in hand.
  unfoldable pub save : (VmSession → VmSession) → VmSession → Exec (World H) VmSession
  save change s w =
      let rows = update_rows s.id change w.sessions in
      if index_ok rows
      then (ok (change s), record w { sessions = rows })
      else (err integrity_error, w)

  -- `await db.refresh(session)`
  unfoldable pub refresh : VmSession → Exec (World H) VmSession
  refresh s w = elim (find_session s.id w.sessions) [
    | none ↦ (err invalid_request, w)
    | some row ↦ (ok row, w)
  ]
