-- ===== src/Api/Vms/Access.antt =====
-- Who may act on a session through the routes.
use knpodly.Base.{
  ℕ, String, ◌≡◌, refl, ap, Bool, Option, true, false, not, ◌&&◌, none, some, ◌==◌, where_rows,
}
use knpodly.Exec.{ok, err, http_exception, gets, pure}
use knpodly.Exec.Runs.{
  Runs, Runs-bind-ok, Runs-bind-err, Runs-refl, Runs-raise_if-fail, Runs-raise_if-pass,
}
use knpodly.Models.{Uuid, User, is_student, VmSession, student}
use knpodly.World.{World, Env, select_session}
use knpodly.World.Tables.{index_ok, find_session}
use knpodly.World.Tables.Rows.{where_rows-key, where_rows-key_absent}
use knpodly.Api.{require_roles}
use knpodly.Api.Vms.{
  require_found, get_owned_or_403, post_stop, post_extend, post_force_stop, report_activity,
  list_all_vms,
}

module _ {H : Type 0} (w : World H) (session_id : Uuid) where
  -- A lookup by the primary key does not meet two rows.
  pub select_session-found :
      (s : VmSession)
      → index_ok w.sessions ≡ true
      → find_session session_id w.sessions ≡ some s
      → Runs (select_session session_id) w (ok (some s), w)
  select_session-found s ix found =
      Runs-bind-ok _ (Runs-refl (gets (λ w. where_rows (λ s. s.id == session_id) w.sessions)) w)
        (record { at = rw (where_rows-key session_id w.sessions s ix found) })

  pub select_session-absent :
      find_session session_id w.sessions ≡ none → Runs (select_session session_id) w (ok none, w)
  select_session-absent absent =
      Runs-bind-ok _ (Runs-refl (gets (λ w. where_rows (λ s. s.id == session_id) w.sessions)) w)
        (record { at = rw (where_rows-key_absent session_id w.sessions absent) })

  module _ (user : User) where
    pub owned-found :
        (s : VmSession)
        → index_ok w.sessions ≡ true
        → find_session session_id w.sessions ≡ some s
        → (not (s.user_id == user.id) && is_student user.role) ≡ false
        → Runs (get_owned_or_403 user session_id) w (ok s, w)
    unfolding get_owned_or_403 require_found
    owned-found s ix found may = Runs-bind-ok _ (select_session-found s ix found) (
        Runs-bind-ok _ (Runs-refl (pure s) w) (
          Runs-bind-ok _ (Runs-raise_if-pass (http_exception 403 "Not your VM") w may)
            (Runs-refl (pure s) w)))

    owned-absent :
        find_session session_id w.sessions ≡ none
        → Runs
            (get_owned_or_403 user session_id)
            w
            (err (http_exception 404 "Session not found"), w)
    unfolding get_owned_or_403 require_found
    owned-absent absent =
        Runs-bind-ok _ (select_session-absent absent) (Runs-bind-err _ (record { at = refl }))

    owned-foreign :
        (s : VmSession)
        → index_ok w.sessions ≡ true
        → find_session session_id w.sessions ≡ some s
        → (not (s.user_id == user.id) && is_student user.role) ≡ true
        → Runs (get_owned_or_403 user session_id) w (err (http_exception 403 "Not your VM"), w)
    unfolding get_owned_or_403 require_found
    owned-foreign s ix found foreign = Runs-bind-ok _ (select_session-found s ix found) (
        Runs-bind-ok _ (Runs-refl (pure s) w)
          (Runs-bind-err _ (Runs-raise_if-fail (http_exception 403 "Not your VM") w foreign)))

    module _ (env : Env H) where
      -- The routes of the owner fail with one exception, and change nothing.
      abbrev pub Refused : ℕ → String → Type 0
      Refused code detail =
          (post_stop env user session_id w ≡ (err (http_exception code detail), w))
          × (post_extend env user session_id w ≡ (err (http_exception code detail), w))
          × (report_activity user session_id w ≡ (err (http_exception code detail), w))

      refused :
          (code : ℕ) (detail : String)
          → Runs (get_owned_or_403 user session_id) w (err (http_exception code detail), w)
          → Refused code detail
      unfolding post_stop post_extend report_activity
      refused code detail runs =
          ((Runs-bind-err _ runs).at, (Runs-bind-err _ runs).at, (Runs-bind-err _ runs).at)

      -- A student who asks to stop, extend or keep alive the session of another user gets status
      -- 403, and the state of the system does not change.
      foreign_session-Refused :
          (s : VmSession)
          → index_ok w.sessions ≡ true
          → find_session session_id w.sessions ≡ some s
          → (s.user_id == user.id) ≡ false
          → is_student user.role ≡ true
          → Refused 403 "Not your VM"
      foreign_session-Refused s ix found foreign role =
          refused 403 "Not your VM" (owned-foreign s ix found (rw foreign (rw role refl)))

      -- To stop, extend or keep alive a session that is not stored gives status 404, whoever asks,
      -- and changes nothing.
      unknown_session-Refused :
          find_session session_id w.sessions ≡ none → Refused 404 "Session not found"
      unknown_session-Refused absent = refused 404 "Session not found" (owned-absent absent)

      -- A student can neither force a stop, whosever the session is, nor list the sessions of all
      -- users: both give status 403 and change nothing.
      student_forbidden :
          user.role ≡ student
          → (post_force_stop env user session_id w
              ≡ (err (http_exception 403 "Insufficient permissions"), w))
            × (list_all_vms env user w ≡ (err (http_exception 403 "Insufficient permissions"), w))
      unfolding post_force_stop list_all_vms require_roles
      student_forbidden role = (
        (Runs-bind-err _ (record { at = rw role })).at,
        (Runs-bind-err _ (record { at = rw role })).at,
      )

module _ {H : Type 0} (env : Env H) (w : World H) (user : User) where
  abbrev pub UnlessOwn : Uuid → Bool → Type 0
  UnlessOwn session_id true = Unit
  UnlessOwn session_id false = Refused w session_id user env 403 "Not your VM"

  -- What the routes of the owner give a student, by the session that is stored under the key: the
  -- own one is open.
  abbrev pub StudentGets : Uuid → Option VmSession → Type 0
  StudentGets session_id none = Refused w session_id user env 404 "Session not found"
  StudentGets session_id (some s) = UnlessOwn session_id (s.user_id == user.id)

  -- A student is kept to the own sessions, and a refusal changes nothing: to stop, extend or keep
  -- alive the stored session of another user gives status 403, and a session that is not stored
  -- gives status 404; to force a stop, whatever the session, the own one and a missing one included,
  -- or to list the sessions of all users gives status 403. The indexes of the table hold.
  pub student-Refused :
      (session_id : Uuid)
      → index_ok w.sessions ≡ true
      → user.role ≡ student
      → StudentGets session_id (find_session session_id w.sessions)
        × (post_force_stop env user session_id w
            ≡ (err (http_exception 403 "Insufficient permissions"), w))
        × (list_all_vms env user w ≡ (err (http_exception 403 "Insufficient permissions"), w))
  student-Refused session_id ix role =
      let (forced, listed) = student_forbidden w session_id user env role in
      (by_row (find_session session_id w.sessions) refl, forced, listed)
    where
      foreign_or_own :
          (s : VmSession)
          → find_session session_id w.sessions ≡ some s
          → (b : Bool) → (s.user_id == user.id) ≡ b
          → UnlessOwn session_id b
      foreign_or_own s found true own = tt
      foreign_or_own s found false foreign =
          foreign_session-Refused w session_id user env s ix found foreign (ap is_student role)

      by_row :
          (o : Option VmSession) → find_session session_id w.sessions ≡ o → StudentGets session_id o
      by_row none absent = unknown_session-Refused w session_id user env absent
      by_row (some s) found = foreign_or_own s found (s.user_id == user.id) refl
