-- ===== src/Startup/Bootstrap.antt =====
-- The first admin, and the handles of a process.
use knpodly.Base.{suc, ◌≡◌, String, false, Option, none, [], ◌∷◌, ◌++◌, arith}
use knpodly.Exec.{ok}
use knpodly.Text.{given}
use knpodly.Models.{User, admin, active}
use knpodly.World.{World, Env}
use knpodly.Startup.{
  Handles, init_arq_pool, close_arq_pool, get_arq_pool, init_redis_bus, close_redis_bus,
  chosen_password, stop_api,
}

module _ {H : Type 0} (env : Env H) (w : World H) (username full_name token : String)
    (password : Option String) where
  -- The row that the script stores, and the state after it.
  abbrev pub chosen : String
  chosen = chosen_password (given password) token

  abbrev pub first_admin : User
  first_admin = record {
    id = w.uuids (suc w.uuid_draws);
    username = username;
    email = none;
    full_name = full_name;
    password_hash = env.crypto.hash (w.uuids w.uuid_draws) chosen;
    role = admin;
    status = active;
    created_by = none;
    created_at = w.clock w.clock_reads;
    last_login_at = none;
  }

  abbrev pub bootstrapped : World H
  bootstrapped = record w {
    users = w.users ++ first_admin ∷ [];
    uuid_draws = suc (suc w.uuid_draws);
    clock_reads = suc w.clock_reads;
  }

-- A process that has started and stopped has no handle left.
stop_api-start :
    (h : Handles)
    → stop_api (init_redis_bus (init_arq_pool h))
      ≡ record { pool = false; redis = false; listener_task = false }
unfolding stop_api init_redis_bus init_arq_pool close_arq_pool close_redis_bus
stop_api-start h = ground arith

-- While it runs, the routes find the pool.
get_arq_pool-start : (h : Handles) → get_arq_pool (init_redis_bus (init_arq_pool h)) ≡ ok tt
unfolding get_arq_pool init_redis_bus init_arq_pool
get_arq_pool-start h = ground arith
