-- ===== src/Lifecycle/Launch.antt =====
-- `launch_vm`: what its guards establish, and what a launch stores.
pub mod Guards
pub mod Aside
use mathlib.Core.Path.{subst}
use knpodly.Base.{
  suc, ℤ, pos, ◌≤ℤ◌, leb_ℤ, leb_ℤ→lt, int_laws, ◌≡◌, ◌↔◌, refl, sym, true, false, inl, inr, String,
  Option, none, some, List, [], ◌∷◌, ◌++◌, arith, head?, length, any, where_rows, length-append,
  where_rows-append, Bool-cases, str_eq, if◌then◌else◌,
}
use knpodly.Exec.{Result, ok, err, gets, ◌>>◌, pure}
use knpodly.Exec.Runs.{Runs, Runs-bind-ok, Runs-bind-err, Runs-refl, Runs-raise_if-pass}
use knpodly.Exec.Checks.{
  Checks, Checks-then, Checks-gets, Checks-weaken, Checks-bind, gets-bind, ok-bind, raise_if-Checks,
}
use knpodly.Models.{
  Uuid, User, is_student, VmSession, OperatingSystem, is_available, MaintenanceWindow, queued,
}
use knpodly.World.{World, Env, scalar_one_or_none, insert_session, refresh, draw_uuid, read_clock}
use knpodly.World.Tables.{active, conflicts, index_ok, find_session}
use knpodly.World.Tables.Laws.{
  find-append_new, index_ok-append, index_ok-append_new, none_active-of_no_conflict,
}
use knpodly.World.Saves.{insert_session-Runs, insert_session-refused, refresh_lem}
use knpodly.Policy.{get_active_policy}
use knpodly.Lifecycle.{
  active_of, new_session, raise_maintenance, raise_existing, check_student, require_available,
  launch_vm,
}
use knpodly.Lifecycle.Launch.Guards.{
  Single, open_windows, scalar-Checks, scalar_single, available-Checks, require_passes, MayLaunch,
  role-Checks, within_cap,
}

-- What a launch by `user` of the image `slug` may do. A refused launch stores no session.
module _ {H : Type 0} (env : Env H) (user : User) (slug : String) (w : World H) where
  pub record Launched (s : VmSession) (w' : World H) : Type 0 where
    pub stored : w'.sessions ≡ w.sessions ++ s ∷ []
    pub queued_for : (s.state ≡ queued) × (s.user_id ≡ user.id)
    pub indexed : index_ok w'.sessions ≡ true
    pub within_cap :
        pos (length (where_rows active w'.sessions))
        ≤ℤ (get_active_policy env w).max_concurrent_vms_total
    pub no_more : (w'.jobs ≡ w.jobs) × (w'.audit_logs ≡ w.audit_logs)
    pub no_port : (s.vnc_port ≡ none) × (w'.ports ≡ w.ports)
    pub allowed : is_student user.role ≡ true → MayLaunch user w
    pub image :
        (os : OperatingSystem) × (where_rows (λ o. str_eq o.slug slug) w.operating_systems
          ≡ os ∷ [])
        × (is_available os.status ≡ true)
        × (s.operating_system_id ≡ os.id)

  -- Nothing is stored, queued or recorded, and no port is claimed.
  abbrev pub Kept : World H → Type 0
  Kept w' =
      (w'.sessions ≡ w.sessions)
      × (w'.jobs ≡ w.jobs)
      × (w'.audit_logs ≡ w.audit_logs)
      × (w'.ports ≡ w.ports)

  abbrev pub Launches : Result VmSession × World H → Type 0
  Launches (ok s, w') = Launched s w'
  Launches (err e, w') = Kept w'

  abbrev pub drawn : World H
  drawn = record w { uuid_draws = suc w.uuid_draws; clock_reads = suc w.clock_reads }

  -- From `session = VMSession(...)` on.
  stored-Launches :
      (os : OperatingSystem)
      → (is_student user.role ≡ true → MayLaunch user w)
      → leb_ℤ
          (get_active_policy env w).max_concurrent_vms_total
          (pos (length (where_rows active w.sessions)))
        ≡ false
      → where_rows (λ o. str_eq o.slug slug) w.operating_systems ≡ os ∷ []
      → is_available os.status ≡ true
      → let s =
          new_session
            (w.uuids w.uuid_draws)
            (w.clock w.clock_reads)
            user
            os
            (get_active_policy env w)
            env.settings in
        Launches ((insert_session s >> refresh s) drawn)
  stored-Launches os may room single available =
      let policy = get_active_policy env w in
      let s =
        new_session (w.uuids w.uuid_draws) (w.clock w.clock_reads) user os policy env.settings in
      let rows = w.sessions in
      elim (Bool-cases (index_ok (rows ++ s ∷ []))) [
        | inl e ↦ ok-bind Launches _ (insert_session-Runs drawn s e) (
            subst Launches
              (sym
                (refresh_lem (record drawn { sessions = rows ++ s ∷ [] }) s
                  (record { indexed = e; stored = find-append_new rows s e })).at)
              (record {
                stored = refl;
                queued_for = (refl, refl);
                indexed = e;
                within_cap = within_cap rows s policy.max_concurrent_vms_total refl room;
                no_more = (refl, refl);
                no_port = (refl, refl);
                allowed = may;
                image = (os, single, available, refl);
              }))
        | inr e ↦
            subst Launches (sym (Runs-bind-err _ (insert_session-refused drawn s e)).at)
              (refl, refl, refl, refl)
      ]

  -- A launch that succeeds appends one queued session for the user, without a port, keeps the
  -- indexes and the cap on active sessions, and was open to the user: the image is available, and
  -- for a student no maintenance window and no active session stood in the way. A launch that raises
  -- stores, queues and records nothing, and neither claims a port.
  pub launch_vm-Launches : Launches (launch_vm env user slug w)
  unfolding launch_vm
  launch_vm-Launches =
      Checks-bind Launches _ _ w (role-Checks user w)
        (λ _ may. gets-bind Launches (get_active_policy env) _ w (
          gets-bind Launches (λ w. where_rows active w.sessions) _ w
            (Checks-bind Launches _ _ w (raise_if-Checks _ _ w)
              (λ _ room.
                gets-bind Launches (λ w. where_rows (λ o. str_eq o.slug slug) w.operating_systems) _
                  w
                  (Checks-bind Launches _ _ w (scalar-Checks _ w)
                    (λ found single.
                      Checks-bind Launches _ _ w (available-Checks slug found w)
                        (λ os (at, available). ok-bind Launches _ (Runs-refl draw_uuid w) (
                          ok-bind Launches _ (Runs-refl read_clock _)
                            (stored-Launches os may room (subst (Single _) at single) available)))
                        (λ e. (refl, refl, refl, refl)))
                    (λ e. (refl, refl, refl, refl))))
              (λ e. (refl, refl, refl, refl)))))
        (λ e. (refl, refl, refl, refl))

  -- Whatever the role of the user, a launch succeeds only if the user has no active session.
  launch_vm-single :
      (s : VmSession) (w' : World H)
      → launch_vm env user slug w ≡ (ok s, w')
      → active_of user.id w.sessions ≡ []
  launch_vm-single s w' e = single (subst Launches e launch_vm-Launches)
    where
      single : Launched s w' → active_of user.id w.sessions ≡ []
      single l =
          let ix : index_ok (w.sessions ++ s ∷ []) ≡ true = rw l.stored at l.indexed in
          let alone : any (conflicts s) w.sessions ≡ false =
            ground (arith, index_ok-append w.sessions s) in
          let open_session : active s ≡ true = rw (l.queued_for.0) refl in
          subst (λ (u : Uuid). active_of u w.sessions ≡ []) l.queued_for.1
            (none_active-of_no_conflict s w.sessions open_session alone)

  -- The guards let the user through.
  student_passes : MayLaunch user w → Runs (check_student user) w (ok tt, w)
  unfolding check_student raise_maintenance raise_existing
  student_passes (calm, closed) =
      Runs-bind-ok _ (Runs-refl (gets (λ w. head? (open_windows w.windows))) w) (
        Runs-bind-ok _ (record { at = rw calm })
          (Runs-bind-ok _ (Runs-refl (gets (λ w. active_of user.id w.sessions)) w)
            (Runs-bind-ok _ {a = none} (record { at = rw closed }) (record { at = refl }))))

  role_passes :
      MayLaunch user w
      → Runs (if is_student user.role then check_student user else pure tt) w (ok tt, w)
  role_passes may = elim (Bool-cases (is_student user.role)) [
    | inl e ↦ rw e (student_passes may)
    | inr e ↦ rw e (record { at = refl })
  ]

  -- The launch does happen: with room under the cap, one available image of that slug, a fresh key,
  -- no active session of the user and no maintenance, the new session is stored and returned.
  launch_vm-accepts :
      (os : OperatingSystem)
      → index_ok w.sessions ≡ true
      → find_session (w.uuids w.uuid_draws) w.sessions ≡ none
      → MayLaunch user w
      → leb_ℤ
          (get_active_policy env w).max_concurrent_vms_total
          (pos (length (where_rows active w.sessions)))
        ≡ false
      → where_rows (λ o. str_eq o.slug slug) w.operating_systems ≡ os ∷ []
      → is_available os.status ≡ true
      → let s =
          new_session
            (w.uuids w.uuid_draws)
            (w.clock w.clock_reads)
            user
            os
            (get_active_policy env w)
            env.settings in
        launch_vm env user slug w ≡ (ok s, record drawn { sessions = w.sessions ++ s ∷ [] })
  unfolding launch_vm
  launch_vm-accepts os ix fresh may room image available =
      let s =
        new_session (w.uuids w.uuid_draws) (w.clock w.clock_reads) user os (get_active_policy env w)
          env.settings in
      let accepted = index_ok-append_new w.sessions s ix fresh may.1 in
      (Runs-bind-ok _ (role_passes may) (
        Runs-bind-ok _ (Runs-refl (gets (get_active_policy env)) w) (
          Runs-bind-ok _ (Runs-refl (gets (λ w. where_rows active w.sessions)) w) (
            Runs-bind-ok _ (Runs-raise_if-pass _ w room) (
              Runs-bind-ok _
                (Runs-refl (gets (λ w. where_rows (λ o. str_eq o.slug slug) w.operating_systems)) w)
                (Runs-bind-ok _ (scalar_single w image) (
                  Runs-bind-ok _ (require_passes slug os w available) (
                    Runs-bind-ok _ (Runs-refl draw_uuid w) (
                      Runs-bind-ok _ (Runs-refl read_clock _) (
                        Runs-bind-ok _ (insert_session-Runs drawn s accepted) (
                          refresh_lem _ s (record {
                            indexed = accepted;
                            stored = find-append_new w.sessions s accepted;
                          })))))))))))).at

  -- With room under the cap, one available image of the slug, a new key and no open maintenance
  -- window, a launch goes through exactly if the user has no active session, whatever the role of the
  -- user.
  pub launch_vm-Admits :
      (os : OperatingSystem)
      → index_ok w.sessions ≡ true
      → find_session (w.uuids w.uuid_draws) w.sessions ≡ none
      → open_windows w.windows ≡ []
      → leb_ℤ
          (get_active_policy env w).max_concurrent_vms_total
          (pos (length (where_rows active w.sessions)))
        ≡ false
      → where_rows (λ o. str_eq o.slug slug) w.operating_systems ≡ os ∷ []
      → is_available os.status ≡ true
      → ((s : VmSession) × (w' : World H) × (launch_vm env user slug w ≡ (ok s, w')))
        ↔ (active_of user.id w.sessions ≡ [])
  launch_vm-Admits os ix fresh calm room image available = (
    λ (s, w', launched). launch_vm-single s w' launched,
    λ closed. (_, _, launch_vm-accepts os ix fresh (calm, closed) room image available),
  )
