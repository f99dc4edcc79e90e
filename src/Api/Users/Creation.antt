-- ===== src/Api/Users/Creation.antt =====
-- `create_user`: every way that it can end.
use knpodly.Base.{
  suc, ◌≡◌, ◌≢◌, refl, true, false, not, ◌&&◌, some, none, [], ◌∷◌, ◌++◌, any, inl, inr, Bool-cases,
  Option-cases,
}
use knpodly.Exec.{Error, Result, ok, err, http_exception, integrity_error, pure, ◌>>=◌, ◌>>◌}
use knpodly.Exec.Runs.{Runs-refl, Runs-raise_if-pass, Runs-raise_if-fail}
use knpodly.Exec.Checks.{ok-bind, err-bind}
use knpodly.Models.{User, UserRole, admin, lecturer, student, active}
use knpodly.Security.{CryptoLaws}
use knpodly.World.{World, Env, draw_uuid, read_clock, record_audit}
use knpodly.World.Accounts.{users_ok, find_username, insert_user, refresh_user}
use knpodly.World.Accounts.Laws.{
  select_username-found, select_username-absent, find_user-append_new, insert_user-Runs,
  insert_user-refused, refresh_user-Runs,
}
use knpodly.Api.{is_role, require_roles}
use knpodly.Models.{text}
use knpodly.Api.Users.Access.{not_student, is_student_role}
use knpodly.Api.Users.{
  user_audit, role_value, UserCreate, UserOut, user_out, raise_taken, create_user,
}

module _ {H : Type 0} (env : Env H) (laws : CryptoLaws env.crypto) (w : World H) (actor : User)
    (payload : UserCreate) (ix : users_ok w.users ≡ true) where
  abbrev pub created : User
  created = record {
    id = w.uuids (suc w.uuid_draws);
    username = payload.username;
    email = payload.email;
    full_name = payload.full_name;
    password_hash = env.crypto.hash (w.uuids w.uuid_draws) payload.password;
    role = payload.role;
    status = active;
    created_by = some actor.id;
    created_at = w.clock w.clock_reads;
    last_login_at = none;
  }

  -- Why a request is refused.
  pub data Refusal (e : Error) : Type 0 where
    not_staff : actor.role ≡ student → e ≡ http_exception 403 "Insufficient permissions" → Refusal e
    escalation :
        payload.role ≡ admin
        → actor.role ≢ admin
        → e ≡ http_exception 403 "Only admins may create admins"
        → Refusal e
    taken :
        (u : User)
        → find_username payload.username w.users ≡ some u
        → e ≡ http_exception 409 "Username already exists"
        → Refusal e
    clash : users_ok (w.users ++ created ∷ []) ≡ false → e ≡ integrity_error → Refusal e

  pub record Created (out : UserOut) (w' : World H) : Type 0 where
    pub staff : actor.role ≢ student
    pub no_escalation : payload.role ≡ admin → actor.role ≡ admin
    pub stored : w'.users ≡ w.users ++ created ∷ []
    pub keys : users_ok w'.users ≡ true
    pub shown : out ≡ user_out created
    pub opens : env.crypto.verify payload.password created.password_hash ≡ true

  abbrev pub Creates : Result UserOut × World H → Type 0
  Creates (ok out, w') = Created out w'
  Creates (err e, w') = Refusal e × (w'.users ≡ w.users) × (w'.audit_logs ≡ w.audit_logs)

  escalates :
      (new mine : UserRole)
      → (is_role new admin && not (is_role mine admin)) ≡ true
      → (new ≡ admin) × (mine ≢ admin)
  escalates admin lecturer h = (refl, λ e. cc)
  escalates admin student h = (refl, λ e. cc)
  escalates admin admin h = cc
  escalates lecturer mine h = cc
  escalates student mine h = cc

  within :
      (new mine : UserRole)
      → (is_role new admin && not (is_role mine admin)) ≡ false
      → new ≡ admin
      → mine ≡ admin
  within admin admin h e = refl
  within admin lecturer h e = cc
  within admin student h e = cc
  within lecturer mine h e = cc
  within student mine h e = cc

  abbrev drawn : World H
  drawn = record w { uuid_draws = suc (suc w.uuid_draws); clock_reads = suc w.clock_reads }

  -- From `db.add(user)` on.
  store-Creates :
      actor.role ≢ student
      → (payload.role ≡ admin → actor.role ≡ admin)
      → Creates (
          (do
            insert_user created
            user' ← refresh_user created
            record_audit (
                user_audit actor "user.created" user'.id
                  (some (("role", text (role_value user'.role)) ∷ [])))
            pure (user_out user'))
            drawn)
  store-Creates staff no_escalation = elim (Bool-cases (users_ok (w.users ++ created ∷ []))) [
    | inl e ↦ ok-bind Creates _ (insert_user-Runs drawn created e) (
        ok-bind Creates _ (refresh_user-Runs _ created (find_user-append_new w.users created e)) (
          ok-bind Creates _ (Runs-refl (record_audit _) _) (record {
            staff = staff;
            no_escalation = no_escalation;
            stored = refl;
            keys = e;
            shown = refl;
            opens = laws.verify-hash (w.uuids w.uuid_draws) payload.password;
          })))
    | inr e ↦ err-bind Creates _ (insert_user-refused drawn created e) (clash e refl, refl, refl)
  ]

  -- A request to create a user either stores one active account with the name and the role of the
  -- request and with a hash that its password verifies against, or is refused, for one of four
  -- reasons, and stores and records nothing: the actor is a student, an actor who is no admin asks
  -- for an admin, the name is taken, or the new row breaks a key of the table. In particular only an
  -- admin creates an admin.
  pub create_user-Creates : Creates (create_user env actor payload w)
  unfolding create_user require_roles raise_taken
  create_user-Creates = elim (Bool-cases (not (any (is_role actor.role) (admin ∷ lecturer ∷ [])))) [
    | inl e ↦
        err-bind Creates _ (Runs-raise_if-fail _ w e)
          (not_staff (is_student_role actor.role e) refl, refl, refl)
    | inr staff ↦
        ok-bind Creates _ (Runs-raise_if-pass _ w staff)
          (elim (Bool-cases (is_role payload.role admin && not (is_role actor.role admin))) [
            | inl e ↦
                let (new, mine) = escalates payload.role actor.role e in
                err-bind Creates _ (Runs-raise_if-fail _ w e) (escalation new mine refl, refl, refl)
            | inr allowed ↦
                ok-bind Creates _ (Runs-raise_if-pass _ w allowed)
                  (elim (Option-cases (find_username payload.username w.users)) [
                    | inl absent ↦
                        ok-bind Creates _ (select_username-absent w payload.username absent) (
                          ok-bind Creates _ (Runs-refl (pure tt) w) (
                            ok-bind Creates _ (Runs-refl draw_uuid _) (
                              ok-bind Creates _ (Runs-refl draw_uuid _) (
                                ok-bind Creates _ (Runs-refl read_clock _) (
                                  store-Creates (not_student actor.role staff)
                                    (within payload.role actor.role allowed))))))
                    | inr (u, found) ↦
                        ok-bind Creates _ (select_username-found w payload.username u ix found) (
                          err-bind Creates _ {t = w} (record { at = refl })
                            (taken u found refl, refl, refl))
                  ])
          ])
  ]
