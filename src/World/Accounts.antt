-- ===== src/World/Accounts.antt =====
-- The table users: its keys (infra/postgres/init/001_schema.sql), and the queries and commits on it.
pub mod Laws
use knpodly.Base.{
  Bool, true, false, not, ◌&&◌, ◌||◌, String, Option, none, some, List, [], ◌∷◌, ◌++◌, any, ◌==◌,
  str_eq, where_rows, if◌then◌else◌,
}
use knpodly.Exec.{Exec, ok, err, gets, integrity_error, invalid_request, ◌>>=◌}
use knpodly.Models.{Uuid, User}
use knpodly.World.{World, scalar_one_or_none}

-- Two addresses that the unique index does not allow together; NULLs differ.
abbrev pub same_email : Option String → Option String → Bool
same_email (some a) (some b) = str_eq a b
same_email _ _ = false

unfoldable pub user_conflicts : User → User → Bool
user_conflicts a b = a.id == b.id || str_eq a.username b.username || same_email a.email b.email

unfoldable pub users_ok : List User → Bool
users_ok [] = true
users_ok (u ∷ rows) = not (any (user_conflicts u) rows) && users_ok rows

unfoldable pub update_users : Uuid → (User → User) → List User → List User
update_users k change [] = []
update_users k change (u ∷ rows) = (if u.id == k then change u else u) ∷ update_users k change rows

unfoldable pub find_user : Uuid → List User → Option User
find_user k [] = none
find_user k (u ∷ rows) = if u.id == k then some u else find_user k rows

unfoldable pub find_username : String → List User → Option User
find_username name [] = none
find_username name (u ∷ rows) = if str_eq u.username name then some u else find_username name rows

module _ {H : Type 0} where
  -- `select(User).where(User.id == id)`, for at most one row
  abbrev pub select_user : Uuid → Exec (World H) (Option User)
  select_user id = gets (λ w. where_rows (λ u. u.id == id) w.users) >>= scalar_one_or_none

  -- `select(User).where(User.username == name)`, for at most one row
  abbrev pub select_username : String → Exec (World H) (Option User)
  select_username name =
      gets (λ w. where_rows (λ u. str_eq u.username name) w.users) >>= scalar_one_or_none

  -- `db.add(user); await db.commit()`
  unfoldable pub insert_user : User → Exec (World H) (Unit {0})
  insert_user u w =
      if users_ok (w.users ++ u ∷ [])
      then (ok tt, record w { users = w.users ++ u ∷ [] })
      else (err integrity_error, w)

  -- Assignments to a loaded row that keep its keys, and `await db.commit()`.
  unfoldable pub save_user : (User → User) → User → Exec (World H) User
  save_user change u w = (ok (change u), record w { users = update_users u.id change w.users })

  -- `await db.refresh(user)`
  unfoldable pub refresh_user : User → Exec (World H) User
  refresh_user u w = elim (find_user u.id w.users) [
    | none ↦ (err invalid_request, w)
    | some row ↦ (ok row, w)
  ]
