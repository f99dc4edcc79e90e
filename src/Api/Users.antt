-- ===== src/Api/Users.antt =====
-- backend/app/api/v1/routers/users.py, with the schemas of app/schemas/user.py. Each handler is
-- given the actor that `get_current_user` found.
pub mod Access
pub mod Creation
use knpodly.Base.{
  String, Bool, true, false, not, ◌&&◌, Option, none, some, List, [], ◌∷◌, map, where_rows, str_eq,
  if◌then◌else◌,
}
use knpodly.Exec.{Exec, http_exception, pure, raise, gets, raise_if, ◌>>=◌, ◌>>◌}
use knpodly.Text.{uuid_str}
use knpodly.Models.{
  Uuid, Time, User, UserRole, admin, lecturer, student, UserStatus, active, disabled, AuditLog,
  JsonValue, text,
}
use knpodly.World.{World, Env, read_clock, draw_uuid, record_audit}
use knpodly.World.Accounts.{select_user, select_username, insert_user, save_user, refresh_user}
use knpodly.Api.{is_role, require_lecturer}

pub record UserCreate : Type 0 where
  pub username : String
  pub full_name : String
  pub email : Option String
  pub password : String
  pub role : UserRole

pub record UserOut : Type 0 where
  pub id : Uuid
  pub username : String
  pub full_name : String
  pub email : Option String
  pub role : UserRole
  pub status : UserStatus
  pub created_at : Time
  pub last_login_at : Option Time

-- `UserOut.model_validate(user)`: the hash of the password stays behind.
abbrev pub user_out : User → UserOut
user_out u = record {
  id = u.id;
  username = u.username;
  full_name = u.full_name;
  email = u.email;
  role = u.role;
  status = u.status;
  created_at = u.created_at;
  last_login_at = u.last_login_at;
}

-- `role.value`
abbrev pub role_value : UserRole → String
role_value admin = "admin"
role_value lecturer = "lecturer"
role_value student = "student"

abbrev pub new_user : Uuid → Time → String → User → UserCreate → User
new_user id now password_hash actor payload = record {
  id = id;
  username = payload.username;
  email = payload.email;
  full_name = payload.full_name;
  password_hash = password_hash;
  role = payload.role;
  status = active;
  created_by = some actor.id;
  created_at = now;
  last_login_at = none;
}

abbrev pub user_audit : User → String → Uuid → Option (List (String × JsonValue)) → AuditLog
user_audit actor action user_id meta = record {
  actor_id = some actor.id;
  actor_role = some actor.role;
  action = action;
  target_type = some "user";
  target_id = some (uuid_str user_id);
  meta = meta;
  ip_address = none;
}

-- The assignments before the commits.
abbrev pub set_password : String → User → User
set_password password_hash u = record u { password_hash = password_hash }

abbrev pub set_status : UserStatus → User → User
set_status status u = record u { status = status }

abbrev role_matches : Option UserRole → User → Bool
role_matches none u = true
role_matches (some role) u = is_role u.role role

module _ {H : Type 0} where
  pub list_users : User → Option UserRole → Exec (World H) (List UserOut)
  list_users actor role = do
    require_lecturer actor
    rows ← gets (λ w. where_rows (role_matches role) w.users)
    pure (map user_out rows)

  pub raise_taken : Option User → Exec (World H) (Unit {0})
  raise_taken none = pure tt
  raise_taken (some user) = raise (http_exception 409 "Username already exists")

  pub require_user : Option User → Exec (World H) User
  require_user none = raise (http_exception 404 "User not found")
  require_user (some user) = pure user

  module _ (env : Env H) where
    pub create_user : User → UserCreate → Exec (World H) UserOut
    unfolding raise_taken
    create_user actor payload = do
      require_lecturer actor
      raise_if (is_role payload.role admin && not (is_role actor.role admin))
          (http_exception 403 "Only admins may create admins")
      existing ← select_username payload.username
      raise_taken existing
      salt ← draw_uuid
      id ← draw_uuid
      now ← read_clock
      let user = new_user id now (env.crypto.hash salt payload.password) actor payload
      insert_user user
      user' ← refresh_user user
      record_audit (
          user_audit actor "user.created" user'.id
            (some (("role", text (role_value user'.role)) ∷ [])))
      pure (user_out user')

    pub reset_password : User → Uuid → String → Exec (World H) (Unit {0})
    unfolding require_user
    reset_password actor user_id new_password = do
      require_lecturer actor
      found ← select_user user_id
      user ← require_user found
      salt ← draw_uuid
      user' ← save_user (set_password (env.crypto.hash salt new_password)) user
      record_audit (user_audit actor "user.password_reset" user'.id none)

  -- `disable_user` and `enable_user` differ in the status and in the action.
  pub change_status : UserStatus → String → User → Uuid → Exec (World H) (Unit {0})
  unfolding require_user
  change_status status action actor user_id = do
    require_lecturer actor
    found ← select_user user_id
    user ← require_user found
    user' ← save_user (set_status status) user
    record_audit (user_audit actor action user'.id none)

  pub disable_user : User → Uuid → Exec (World H) (Unit {0})
  unfolding change_status
  disable_user = change_status disabled "user.disabled"

  pub enable_user : User → Uuid → Exec (World H) (Unit {0})
  unfolding change_status
  enable_user = change_status active "user.enabled"
