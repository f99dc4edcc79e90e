-- ===== src/World/Accounts/Laws.antt =====
-- Lookups in the table users, and its keys under inserts and updates.
use knpodly.Base.{
  Option, ◌≡◌, refl, true, false, not, ◌&&◌, ◌||◌, String, none, some, List, [], ◌∷◌, ◌++◌, any,
  where_rows, arith, ◌==◌, str_eq, eq_iff, if◌then◌else◌, inl, inr, Bool-cases,
}
use knpodly.Exec.{ok, err, integrity_error, gets}
use knpodly.Exec.Runs.{Runs, Runs-bind-ok, Runs-refl}
use knpodly.Models.{Uuid, User}
use knpodly.World.{World}
use knpodly.World.Accounts.{
  same_email, user_conflicts, users_ok, update_users, find_user, find_username, select_user,
  select_username, insert_user, save_user, refresh_user,
}

no_conflict-id :
    (u : User) (rows : List User)
    → any (user_conflicts u) rows ≡ false
    → where_rows (λ r. r.id == u.id) rows ≡ []
unfolding user_conflicts
no_conflict-id u [] h = refl
no_conflict-id u (r ∷ rows) h = ground (arith, no_conflict-id u rows)

no_conflict-username :
    (u : User) (rows : List User)
    → any (user_conflicts u) rows ≡ false
    → where_rows (λ r. str_eq r.username u.username) rows ≡ []
unfolding user_conflicts
no_conflict-username u [] h = refl
no_conflict-username u (r ∷ rows) h =
    ground (
      arith,
      eq_iff r.username u.username,
      eq_iff u.username r.username,
      no_conflict-username u rows,
    )

pub where_rows-id :
    (k : Uuid) (rows : List User) (u : User)
    → users_ok rows ≡ true
    → find_user k rows ≡ some u
    → where_rows (λ r. r.id == k) rows ≡ u ∷ []
unfolding users_ok find_user
where_rows-id k [] u ix h = cc
where_rows-id k (r ∷ rows) u ix h = elim (Bool-cases (r.id == k)) [
  | inl e ↦ ground (arith, e, no_conflict-id r rows)
  | inr e ↦ ground (arith, e, where_rows-id k rows u)
]

pub where_rows-id_absent :
    (k : Uuid) (rows : List User) → find_user k rows ≡ none → where_rows (λ r. r.id == k) rows ≡ []
unfolding find_user
where_rows-id_absent k [] h = refl
where_rows-id_absent k (r ∷ rows) h = ground (arith, where_rows-id_absent k rows)

pub where_rows-username :
    (name : String) (rows : List User) (u : User)
    → users_ok rows ≡ true
    → find_username name rows ≡ some u
    → where_rows (λ r. str_eq r.username name) rows ≡ u ∷ []
unfolding users_ok find_username
where_rows-username name [] u ix h = cc
where_rows-username name (r ∷ rows) u ix h = elim (Bool-cases (str_eq r.username name)) [
  | inl e ↦ ground (arith, e, eq_iff r.username name, no_conflict-username r rows)
  | inr e ↦ ground (arith, e, where_rows-username name rows u)
]

pub where_rows-username_absent :
    (name : String) (rows : List User)
    → find_username name rows ≡ none
    → where_rows (λ r. str_eq r.username name) rows ≡ []
unfolding find_username
where_rows-username_absent name [] h = refl
where_rows-username_absent name (r ∷ rows) h = ground (arith, where_rows-username_absent name rows)

pub find_user-id : (k : Uuid) (rows : List User) (u : User) → find_user k rows ≡ some u → u.id ≡ k
unfolding find_user
find_user-id k [] u h = cc
find_user-id k (r ∷ rows) u h = ground (arith, find_user-id k rows u)

apart-of_no_conflict :
    (x : User) (k : Uuid) (rows : List User) (u : User)
    → any (user_conflicts x) rows ≡ false
    → find_user k rows ≡ some u
    → (x.id == k) ≡ false
unfolding user_conflicts find_user
apart-of_no_conflict x k [] u h f = cc
apart-of_no_conflict x k (r ∷ rows) u h f = ground (arith, apart-of_no_conflict x k rows u)

-- A row found by its name is found by its key.
pub find_user-username :
    (name : String) (rows : List User) (u : User)
    → users_ok rows ≡ true
    → find_username name rows ≡ some u
    → find_user u.id rows ≡ some u
unfolding users_ok find_username find_user
find_user-username name [] u ix h = cc
find_user-username name (r ∷ rows) u ix h = elim (Bool-cases (str_eq r.username name)) [
  | inl e ↦ ground (arith, e)
  | inr e ↦
      let found : find_user u.id rows ≡ some u =
        find_user-username name rows u (ground arith) (ground (arith, e)) in
      let apart = apart-of_no_conflict r u.id rows u (ground arith) found in rw apart found
]

-- A change that keeps the keys of every row.
pub record KeepsKeys (change : User → User) : Type 0 where
  pub id : (u : User) → (change u).id ≡ u.id
  pub username : (u : User) → (change u).username ≡ u.username
  pub email : (u : User) → (change u).email ≡ u.email

module _ (k : Uuid) (change : User → User) (keeps : KeepsKeys change) where
  conflicts-update :
      (x y : User) (rows : List User)
      → x.id ≡ y.id
      → x.username ≡ y.username
      → x.email ≡ y.email
      → any (user_conflicts x) (update_users k change rows) ≡ any (user_conflicts y) rows
  unfolding user_conflicts update_users
  conflicts-update x y [] i n e = refl
  conflicts-update x y (r ∷ rows) i n e =
      ground (arith, keeps.id r, keeps.username r, keeps.email r, conflicts-update x y rows)

  pub users_ok-update : (rows : List User) → users_ok (update_users k change rows) ≡ users_ok rows
  unfolding users_ok update_users
  users_ok-update [] = refl
  users_ok-update (r ∷ rows) = ground (
    arith,
    keeps.id r,
    keeps.username r,
    keeps.email r,
    users_ok-update rows,
    conflicts-update (change r) r rows,
    conflicts-update r r rows,
  )

  pub find_user-update :
      (j : Uuid) (rows : List User) (u : User)
      → find_user j rows ≡ some u
      → find_user j (update_users k change rows) ≡ some (if u.id == k then change u else u)
  unfolding find_user update_users
  find_user-update j [] u h = cc
  find_user-update j (r ∷ rows) u h = ground (arith, keeps.id r, find_user-update j rows u)

  pub find_username-update :
      (name : String) (rows : List User) (u : User)
      → find_username name rows ≡ some u
      → find_username name (update_users k change rows) ≡ some (if u.id == k then change u else u)
  unfolding find_username update_users
  find_username-update name [] u h = cc
  find_username-update name (r ∷ rows) u h =
      ground (arith, keeps.username r, find_username-update name rows u)

module _ {H : Type 0} (w : World H) where
  pub select_user-found :
      (k : Uuid) (u : User)
      → users_ok w.users ≡ true
      → find_user k w.users ≡ some u
      → Runs (select_user k) w (ok (some u), w)
  select_user-found k u ix h =
      Runs-bind-ok _ (Runs-refl (gets (λ w. where_rows (λ r. r.id == k) w.users)) w)
        (record { at = rw (where_rows-id k w.users u ix h) })

  pub select_user-absent :
      (k : Uuid) → find_user k w.users ≡ none → Runs (select_user k) w (ok none, w)
  select_user-absent k h =
      Runs-bind-ok _ (Runs-refl (gets (λ w. where_rows (λ r. r.id == k) w.users)) w)
        (record { at = rw (where_rows-id_absent k w.users h) })

  pub select_username-found :
      (name : String) (u : User)
      → users_ok w.users ≡ true
      → find_username name w.users ≡ some u
      → Runs (select_username name) w (ok (some u), w)
  select_username-found name u ix h =
      Runs-bind-ok _ (Runs-refl (gets (λ w. where_rows (λ r. str_eq r.username name) w.users)) w)
        (record { at = rw (where_rows-username name w.users u ix h) })

  pub select_username-absent :
      (name : String)
      → find_username name w.users ≡ none
      → Runs (select_username name) w (ok none, w)
  select_username-absent name h =
      Runs-bind-ok _ (Runs-refl (gets (λ w. where_rows (λ r. str_eq r.username name) w.users)) w)
        (record { at = rw (where_rows-username_absent name w.users h) })

same_email_comm : (a b : Option String) → same_email a b ≡ same_email b a
same_email_comm none none = refl
same_email_comm none (some b) = refl
same_email_comm (some a) none = refl
same_email_comm (some a) (some b) = ground (arith, eq_iff a b, eq_iff b a)

user_conflicts_comm : (x y : User) → user_conflicts x y ≡ user_conflicts y x
unfolding user_conflicts
user_conflicts_comm x y = ground (
  arith,
  eq_iff x.username y.username,
  eq_iff y.username x.username,
  same_email_comm x.email y.email,
)

any-conflicts-append :
    (x u : User) (rows : List User)
    → any (user_conflicts x) (rows ++ u ∷ []) ≡ (any (user_conflicts x) rows || user_conflicts u x)
any-conflicts-append x u [] = ground (arith, user_conflicts_comm x u)
any-conflicts-append x u (r ∷ rows) = ground (arith, any-conflicts-append x u rows)

pub users_ok-append :
    (rows : List User) (u : User)
    → users_ok (rows ++ u ∷ []) ≡ (not (any (user_conflicts u) rows) && users_ok rows)
unfolding users_ok
users_ok-append [] u = refl
users_ok-append (r ∷ rows) u = ground (arith, any-conflicts-append r u rows, users_ok-append rows u)

find_user-append :
    (u : User) (rows : List User)
    → any (user_conflicts u) rows ≡ false
    → find_user u.id (rows ++ u ∷ []) ≡ some u
unfolding find_user user_conflicts
find_user-append u [] h = ground arith
find_user-append u (r ∷ rows) h = ground (arith, find_user-append u rows)

-- A stored row is found by its key.
pub find_user-append_new :
    (rows : List User) (u : User)
    → users_ok (rows ++ u ∷ []) ≡ true
    → find_user u.id (rows ++ u ∷ []) ≡ some u
find_user-append_new rows u h = find_user-append u rows (ground (arith, users_ok-append rows u))

module _ {H : Type 0} (w : World H) (u : User) where
  pub insert_user-Runs :
      users_ok (w.users ++ u ∷ []) ≡ true
      → Runs (insert_user u) w (ok tt, record w { users = w.users ++ u ∷ [] })
  unfolding insert_user
  insert_user-Runs e = record { at = rw e }

  pub insert_user-refused :
      users_ok (w.users ++ u ∷ []) ≡ false → Runs (insert_user u) w (err integrity_error, w)
  unfolding insert_user
  insert_user-refused e = record { at = rw e }

  pub refresh_user-Runs : find_user u.id w.users ≡ some u → Runs (refresh_user u) w (ok u, w)
  unfolding refresh_user
  refresh_user-Runs e = record { at = rw (e, refresh_user) }

  pub save_user-Runs :
      (change : User → User)
      → Runs
          (save_user change u)
          w
          (ok (change u), record w { users = update_users u.id change w.users })
  unfolding save_user
  save_user-Runs change = record { at = refl }
