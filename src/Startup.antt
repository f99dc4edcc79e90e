-- ===== src/Startup.antt =====
-- How the backend comes up: the life of an API process (backend/app/main.py, with the handles that
-- backend/app/core/arq_pool.py and backend/app/services/redis_bus.py keep), and the script that stores
-- the first admin (scripts/create-admin.py). `secrets.token_urlsafe(12)` is an argument.
pub mod Bootstrap
use Prim.Native.String.{◌++◌}
use knpodly.Base.{String, Bool, true, false, Option, none, some, List, [], ◌∷◌, if◌then◌else◌}
use knpodly.Exec.{Exec, Result, ok, err, runtime_error, pure, ◌>>=◌, ◌>>◌}
use knpodly.Text.{given}
use knpodly.Models.{Uuid, Time, User, admin, active}
use knpodly.World.{World, Env, read_clock, draw_uuid}
use knpodly.World.Accounts.{insert_user}
use knpodly.ImageDiscovery.Sync.{sync_to_database}

-- The module variables `_pool`, `_redis` and `_listener_task`: whether they are set.
pub record Handles : Type 0 where
  pub pool : Bool
  pub redis : Bool
  pub listener_task : Bool

-- A process before its start.
abbrev pub no_handles : Handles
no_handles = record { pool = false; redis = false; listener_task = false }

unfoldable pub init_arq_pool : Handles → Handles
init_arq_pool h = if h.pool then h else record h { pool = true }

unfoldable pub close_arq_pool : Handles → Handles
close_arq_pool h = if h.pool then record h { pool = false } else h

unfoldable pub get_arq_pool : Handles → Result (Unit {0})
get_arq_pool h =
    if h.pool
    then ok tt
    else err (runtime_error "arq pool not initialized — is the app lifespan running?")

unfoldable pub init_redis_bus : Handles → Handles
init_redis_bus h = record h { redis = true; listener_task = true }

unfoldable pub close_redis_bus : Handles → Handles
close_redis_bus h = record h {
  redis = if h.redis then false else h.redis;
  listener_task = if h.listener_task then false else h.listener_task;
}

abbrev pub chosen_password : Option String → String → String
chosen_password none token = token
chosen_password (some password) token = password

abbrev pub is_none : Option String → Bool
is_none none = true
is_none (some _) = false

abbrev pub admin_row : Uuid → Time → String → String → String → User
admin_row id now username full_name password_hash = record {
  id = id;
  username = username;
  email = none;
  full_name = full_name;
  password_hash = password_hash;
  role = admin;
  status = active;
  created_by = none;
  created_at = now;
  last_login_at = none;
}

-- What the script prints.
unfoldable pub printed : String → Option String → String → List String
printed username password chosen =
    if is_none password
    then ("Admin user '" ++ username ++ "' created.")
      ∷ ("Generated password: " ++ chosen)
      ∷ "Store this securely and change it after first login."
      ∷ []
    else ("Admin user '" ++ username ++ "' created.") ∷ []

module _ {H : Type 0} (env : Env H) where
  -- `lifespan` up to its `yield`, in a process that has these handles
  unfoldable pub start_api : Handles → Exec (World H) Handles
  start_api h = do sync_to_database env; pure (init_redis_bus (init_arq_pool h))

  -- `main` of create-admin.py: `password or secrets.token_urlsafe(12)`
  unfoldable pub create_admin :
      String → String → Option String → String → Exec (World H) (List String)
  create_admin username full_name password token = do
    salt ← draw_uuid
    id ← draw_uuid
    now ← read_clock
    let chosen = chosen_password (given password) token
    insert_user (admin_row id now username full_name (env.crypto.hash salt chosen))
    pure (printed username password chosen)

-- the `finally` of `lifespan`
unfoldable pub stop_api : Handles → Handles
stop_api h = close_arq_pool (close_redis_bus h)
