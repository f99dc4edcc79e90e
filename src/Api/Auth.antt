-- ===== src/Api/Auth.antt =====
-- backend/app/api/v1/routers/auth.py and `get_current_user` of deps.py.
pub mod Login
pub mod Tokens
use knpodly.Base.{
  String, Bool, true, false, not, Option, none, some, List, [], ◌∷◌, str_eq, where_rows,
  if◌then◌else◌,
}
use knpodly.Exec.{Exec, http_exception, pure, raise, gets, raise_if, ◌>>=◌, ◌>>◌}
use knpodly.Text.{uuid_str}
use knpodly.Models.{Uuid, Time, User, UserStatus, active, AuditLog, JsonValue, text}
use knpodly.Security.{Payload, access_claims, refresh_claims}
use knpodly.RateLimit.{check_login_rate_limit, reset_login_rate_limit}
use knpodly.World.{World, Env, read_clock, draw_uuid, on_counters, record_audit}
use knpodly.World.Accounts.{select_user, select_username, save_user}
use knpodly.Api.Users.{UserOut, user_out, set_password, role_value}

pub record TokenResponse : Type 0 where
  pub access_token : String
  pub refresh_token : String

abbrev pub is_enabled : UserStatus → Bool
is_enabled active = true
is_enabled _ = false

abbrev pub mark_login : Time → User → User
mark_login now u = record u { last_login_at = some now }

-- The audit rows of a login, which are about no target.
abbrev pub failed_audit : String → String → AuditLog
failed_audit username client_ip = record {
  actor_id = none;
  actor_role = none;
  action = "auth.login_failed";
  target_type = none;
  target_id = none;
  meta = some (("username", text username) ∷ []);
  ip_address = some client_ip;
}

abbrev pub own_audit : User → String → Option String → AuditLog
own_audit user action client_ip = record {
  actor_id = some user.id;
  actor_role = some user.role;
  action = action;
  target_type = none;
  target_id = none;
  meta = none;
  ip_address = client_ip;
}

module _ {H : Type 0} (env : Env H) where
  create_access_token : String → String → Exec (World H) String
  create_access_token subject role = do
    now ← read_clock
    pure (env.crypto.encode (access_claims env.settings now subject role))

  create_refresh_token : String → Exec (World H) String
  create_refresh_token subject = do
    now ← read_clock
    pure (env.crypto.encode (refresh_claims env.settings now subject))

  -- `if user is None or not verify_password(...)`
  login_user : String → String → String → Option User → Exec (World H) User
  login_user client_ip username password none = do
    record_audit (failed_audit username client_ip)
    raise (http_exception 401 "Invalid credentials")
  login_user client_ip username password (some user) =
      if env.crypto.verify password user.password_hash then pure user else (do
        record_audit (failed_audit username client_ip)
        raise (http_exception 401 "Invalid credentials"))

  pub login : String → String → String → Exec (World H) TokenResponse
  unfolding login_user create_access_token create_refresh_token
  login client_ip username password = do
    attempt ← read_clock
    on_counters (check_login_rate_limit env.builtins.lower attempt client_ip username)
    found ← select_username username
    user ← login_user client_ip username password found
    raise_if (not (is_enabled user.status)) (http_exception 403 "Account disabled")
    on_counters (reset_login_rate_limit env.builtins.lower client_ip username)
    now ← read_clock
    user' ← save_user (mark_login now) user
    record_audit (own_audit user' "auth.login_success" (some client_ip))
    access_token ← create_access_token (uuid_str user'.id) (role_value user'.role)
    refresh_token ← create_refresh_token (uuid_str user'.id)
    pure (record { access_token = access_token; refresh_token = refresh_token })

  pub change_password : User → String → String → Exec (World H) (Unit {0})
  change_password user current_password new_password = do
    raise_if (not (env.crypto.verify current_password user.password_hash))
        (http_exception 400 "Current password incorrect")
    salt ← draw_uuid
    user' ← save_user (set_password (env.crypto.hash salt new_password)) user
    record_audit (own_audit user' "auth.password_changed" none)

  -- `payload.get("type") != "access"`
  abbrev is_access : Option String → Bool
  is_access none = false
  is_access (some kind) = str_eq kind "access"

  -- `uuid.UUID(payload["sub"])`
  subject_of : Option String → Option Uuid
  subject_of none = none
  subject_of (some sub) = env.builtins.parse_uuid sub

  -- The `try` statement: every failure in it ends in the same exception.
  token_user : Option Payload → Option Uuid
  unfolding subject_of
  token_user none = none
  token_user (some payload) = if is_access payload.kind then subject_of payload.sub else none

  require_known : {A : Type 0} → Option A → Exec (World H) A
  require_known none = raise (http_exception 401 "Could not validate credentials")
  require_known (some a) = pure a

  pub get_current_user : String → Exec (World H) User
  unfolding token_user require_known
  get_current_user token = do
    now ← read_clock
    user_id ← require_known (token_user (env.crypto.decode now token))
    found ← select_user user_id
    user ← require_known found
    raise_if (not (is_enabled user.status)) (http_exception 403 "Account disabled")
    pure user

-- `GET /auth/me`
pub get_me : User → UserOut
get_me user = user_out user
