-- ===== src/Api/Users/Access.antt =====
-- What `reset_password`, `disable_user` and `enable_user` do, in every case.
use knpodly.Base.{
  ◌≡◌, ◌≢◌, refl, inl, inr, ◌⊎◌, String, true, false, not, any, none, some, [], ◌∷◌, ◌++◌,
  Bool-cases, Option-cases,
}
use knpodly.Exec.{Exec, Result, ok, err, http_exception, ◌>>=◌, ◌>>◌}
use knpodly.Exec.Runs.{Runs-refl, Runs-raise_if-pass, Runs-raise_if-fail}
use knpodly.Exec.Checks.{ok-bind, err-bind}
use knpodly.Models.{Uuid, User, UserRole, student, lecturer, admin, UserStatus, active, disabled}
use knpodly.World.{World, Env, draw_uuid}
use knpodly.World.Accounts.{users_ok, find_user, update_users, select_user}
use knpodly.World.Accounts.Laws.{select_user-found, select_user-absent, save_user-Runs}
use knpodly.Api.{is_role, require_roles, require_lecturer}
use knpodly.Api.Users.{
  user_audit, set_password, set_status, reset_password, disable_user, enable_user, change_status,
  require_user,
}

pub not_student :
    (role : UserRole) → not (any (is_role role) (admin ∷ lecturer ∷ [])) ≡ false → role ≢ student
not_student admin h e = cc
not_student lecturer h e = cc
not_student student h e = cc

pub is_student_role :
    (role : UserRole) → not (any (is_role role) (admin ∷ lecturer ∷ [])) ≡ true → role ≡ student
is_student_role admin h = cc
is_student_role lecturer h = cc
is_student_role student h = refl

module _ {H : Type 0} (actor : User) (user_id : Uuid) (v : World H) where
  -- The row of `user_id`, and it alone, is changed and the change is recorded; or nothing changes,
  -- since the actor is a student or there is no such row.
  abbrev pub Changes : (User → User) → String → Result (Unit {0}) × World H → Type 0
  Changes change action (ok _, v') =
      (u : User) × (actor.role ≢ student)
      × (find_user user_id v.users ≡ some u)
      × (v'.users ≡ update_users u.id change v.users)
      × (v'.audit_logs ≡ v.audit_logs ++ user_audit actor action u.id none ∷ [])
      × (v'.clock v'.clock_reads ≡ v.clock v.clock_reads)
  Changes change action (err e, v') =
      (v' ≡ v)
      × (((actor.role ≡ student) × (e ≡ http_exception 403 "Insufficient permissions"))
          ⊎ ((find_user user_id v.users ≡ none) × (e ≡ http_exception 404 "User not found")))

  -- The guards that the three handlers share.
  guarded-Changes :
      (change : User → User) (action : String) (f : User → Exec (World H) (Unit {0}))
      → users_ok v.users ≡ true
      → ((u : User)
          → actor.role ≢ student
          → find_user user_id v.users ≡ some u
          → Changes change action (f u v))
      → Changes change action (
          (do
            require_lecturer actor
            found ← select_user user_id
            user ← require_user found
            f user)
            v)
  unfolding require_roles require_user
  guarded-Changes change action f ix rest =
      elim (Bool-cases (not (any (is_role actor.role) (admin ∷ lecturer ∷ [])))) [
        | inl e ↦
            err-bind (Changes change action) _ (Runs-raise_if-fail _ v e)
              (refl, inl (is_student_role actor.role e, refl))
        | inr staff ↦
            ok-bind (Changes change action) _ (Runs-raise_if-pass _ v staff)
              (elim (Option-cases (find_user user_id v.users)) [
                | inl absent ↦
                    ok-bind (Changes change action) _ (select_user-absent v user_id absent) (
                      err-bind (Changes change action) _ {t = v} (record { at = refl })
                        (refl, inr (absent, refl)))
                | inr (u, found) ↦
                    ok-bind (Changes change action) _ (select_user-found v user_id u ix found) (
                      ok-bind (Changes change action) _ {t = v} {a = u} (record { at = refl })
                        (rest u (not_student actor.role staff) found))
              ])
      ]

  pub change_status-Changes :
      (status : UserStatus) (action : String)
      → users_ok v.users ≡ true
      → Changes (set_status status) action (change_status status action actor user_id v)
  unfolding change_status
  change_status-Changes status action ix =
      guarded-Changes (set_status status) action _ ix (λ u staff found.
        ok-bind (Changes (set_status status) action) _ (save_user-Runs v u (set_status status))
          (u, staff, found, refl, refl, refl))

  -- Resetting a password, disabling and enabling an account each change this one field of the row
  -- with the given id, and of no other row, and add the one audit row for it; the new hash is that
  -- of the new password under a fresh salt. A student is refused with status 403 and an unknown id
  -- with status 404, and then nothing changes at all.
  pub account-Changes :
      (env : Env H) (new_password : String)
      → users_ok v.users ≡ true
      → Changes
          (λ u. record u { password_hash = env.crypto.hash (v.uuids v.uuid_draws) new_password })
          "user.password_reset"
          (reset_password env actor user_id new_password v)
        × Changes
            (λ u. record u { status = disabled })
            "user.disabled"
            (disable_user actor user_id v)
        × Changes (λ u. record u { status = active }) "user.enabled" (enable_user actor user_id v)
  unfolding reset_password disable_user enable_user
  account-Changes env new_password ix =
      let change = set_password (env.crypto.hash (v.uuids v.uuid_draws) new_password) in
      (
        guarded-Changes change "user.password_reset" _ ix (λ u staff found.
            ok-bind (Changes change "user.password_reset") _ (Runs-refl draw_uuid v) (
              ok-bind (Changes change "user.password_reset") _ (save_user-Runs _ u change)
                (u, staff, found, refl, refl, refl))),
        change_status-Changes disabled "user.disabled" ix,
        change_status-Changes active "user.enabled" ix,
      )
