-- ===== src/Api/Auth/Login.antt =====
-- `login`: every way that it can end.
use knpodly.Base.{
  ℕ, suc, ◌≡◌, refl, ◌∙◌, inl, inr, String, true, false, not, Option, none, some, [], ◌∷◌, ◌++◌,
  ltb, Bool-cases, Option-cases,
}
use knpodly.Exec.{Error, Result, ok, err, http_exception, pure, raise_if, ◌>>=◌, ◌>>◌}
use knpodly.Exec.Runs.{Runs, Runs-refl}
use knpodly.Exec.Checks.{ok-bind, err-bind}
use knpodly.Text.{uuid_str}
use knpodly.Models.{User, UserStatus, active, disabled}
use knpodly.Security.{access_claims, refresh_claims}
use knpodly.RateLimit.{Counters, max_attempts, check_login_rate_limit, reset_login_rate_limit}
use knpodly.RateLimit.Windows.{verdict, check-verdict}
use knpodly.World.{World, Env, read_clock, on_counters, record_audit}
use knpodly.World.Accounts.{users_ok, find_username, update_users, save_user}
use knpodly.World.Accounts.Laws.{select_username-found, select_username-absent}
use knpodly.Api.Users.{role_value}
use knpodly.Api.Auth.{
  TokenResponse, is_enabled, mark_login, failed_audit, own_audit, login, login_user,
  create_access_token, create_refresh_token,
}

is_enabled-active : (status : UserStatus) → not (is_enabled status) ≡ false → status ≡ active
is_enabled-active active h = refl
is_enabled-active disabled h = cc

disabled-of : (status : UserStatus) → not (is_enabled status) ≡ true → status ≡ disabled
disabled-of active h = cc
disabled-of disabled h = refl

module _ {H : Type 0} (env : Env H) (w : World H) (client_ip username password : String)
    (ix : users_ok w.users ≡ true) where
  -- Why a login is denied.
  pub data Denied (e : Error) : Type 0 where
    too_many :
        (check_login_rate_limit env.builtins.lower
            (w.clock w.clock_reads)
            client_ip
            username
            w.login_attempts).0
          ≡ err e
        → e ≡ http_exception 429 "Too many login attempts. Please wait a few minutes and try again."
        → Denied e
    unknown :
        find_username username w.users ≡ none
        → e ≡ http_exception 401 "Invalid credentials"
        → Denied e
    wrong_password :
        (u : User)
        → find_username username w.users ≡ some u
        → env.crypto.verify password u.password_hash ≡ false
        → e ≡ http_exception 401 "Invalid credentials"
        → Denied e
    disabled_account :
        (u : User)
        → find_username username w.users ≡ some u
        → env.crypto.verify password u.password_hash ≡ true
        → u.status ≡ disabled
        → e ≡ http_exception 403 "Account disabled"
        → Denied e

  -- The tokens and the table after a login of `u`: the clock was read for the attempt, for
  -- `last_login_at` and for each token.
  pub record Granted (u : User) (tokens : TokenResponse) (w' : World H) : Type 0 where
    pub named : find_username username w.users ≡ some u
    pub opens : env.crypto.verify password u.password_hash ≡ true
    pub enabled : u.status ≡ active
    pub marked : w'.users ≡ update_users u.id (mark_login (w.clock (suc w.clock_reads))) w.users
    pub access :
        tokens.access_token
        ≡ env.crypto.encode (
            access_claims env.settings
              (w.clock (suc (suc w.clock_reads)))
              (uuid_str u.id)
              (role_value u.role))
    pub refresh :
        tokens.refresh_token
        ≡ env.crypto.encode
            (refresh_claims env.settings (w.clock (suc (suc (suc w.clock_reads)))) (uuid_str u.id))

  abbrev pub LogsIn : Result TokenResponse × World H → Type 0
  LogsIn (ok tokens, w') = (u : User) × Granted u tokens w'
  LogsIn (err e, w') = Denied e × (w'.users ≡ w.users)

  abbrev counted : Counters → World H
  counted cs = record w { clock_reads = suc w.clock_reads; login_attempts = cs }

  -- A refused password is recorded and answered with status 401.
  abbrev refused : Counters → World H
  refused cs = record w {
    clock_reads = suc w.clock_reads;
    login_attempts = cs;
    audit_logs = w.audit_logs ++ failed_audit username client_ip ∷ [];
  }

  -- From the password on.
  user-LogsIn :
      (cs : Counters) (found : Option User)
      → find_username username w.users ≡ found
      → LogsIn (
          (do
            user ← login_user env client_ip username password found
            raise_if (not (is_enabled user.status)) (http_exception 403 "Account disabled")
            on_counters (reset_login_rate_limit env.builtins.lower client_ip username)
            now ← read_clock
            user' ← save_user (mark_login now) user
            record_audit (own_audit user' "auth.login_success" (some client_ip))
            access_token ← create_access_token env (uuid_str user'.id) (role_value user'.role)
            refresh_token ← create_refresh_token env (uuid_str user'.id)
            pure (record { access_token = access_token; refresh_token = refresh_token }))
            (counted cs))
  unfolding login_user reset_login_rate_limit create_access_token create_refresh_token ◌>>=◌
      save_user
  user-LogsIn cs none absent = (unknown absent refl, refl)
  user-LogsIn cs (some u) found = elim (Bool-cases (env.crypto.verify password u.password_hash)) [
    | inl opens ↦ elim (Bool-cases (not (is_enabled u.status))) [
      | inl off ↦
          rw (opens, off) (disabled_account u found opens (disabled-of u.status off) refl, refl)
      | inr on ↦
          rw (opens, on)
            (
              u,
              record {
                named = found;
                opens = opens;
                enabled = is_enabled-active u.status on;
                marked = refl;
                access = refl;
                refresh = refl;
              },
            )
    ]
    | inr shut ↦ rw shut (wrong_password u found shut refl, refl)
  ]

  on_counters-Runs :
      (n : ℕ) (cs : Counters)
      → check_login_rate_limit env.builtins.lower
          (w.clock w.clock_reads)
          client_ip
          username
          w.login_attempts
        ≡ (verdict n, cs)
      → Runs
          (on_counters
            (check_login_rate_limit env.builtins.lower (w.clock w.clock_reads) client_ip username))
          (record w { clock_reads = suc w.clock_reads })
          (verdict n, counted cs)
  on_counters-Runs n cs e = record { at = rw e refl }

  attempt-refused :
      (n : ℕ) (cs : Counters)
      → check_login_rate_limit env.builtins.lower
          (w.clock w.clock_reads)
          client_ip
          username
          w.login_attempts
        ≡ (verdict n, cs)
      → ltb max_attempts n ≡ true
      → (check_login_rate_limit env.builtins.lower
          (w.clock w.clock_reads)
          client_ip
          username
          w.login_attempts).0
        ≡ err
            (http_exception 429 "Too many login attempts. Please wait a few minutes and try again.")
  attempt-refused n cs e many = rw e (rw many refl)

  -- A login either grants tokens to the user of that name, whose password verifies and whose account
  -- is active, and changes nothing in the table of users but the time of this user's last login; or
  -- it is denied and leaves the table as it was, because of too many attempts, because no user has
  -- the name, because the password does not verify (both with the same answer), or because the
  -- account is disabled.
  pub login-LogsIn : LogsIn (login env client_ip username password w)
  unfolding login
  login-LogsIn =
      let (n, cs, e) =
        check-verdict env.builtins.lower client_ip username (w.clock w.clock_reads)
          w.login_attempts in
      ok-bind LogsIn _ (Runs-refl read_clock w) (elim (Bool-cases (ltb max_attempts n)) [
        | inl many ↦
            err-bind LogsIn _ {t = counted cs}
              (record { at = (on_counters-Runs n cs e).at ∙ rw many refl })
              (too_many (attempt-refused n cs e many) refl, refl)
        | inr few ↦
            ok-bind LogsIn _ {t = counted cs}
              (record { at = (on_counters-Runs n cs e).at ∙ rw few refl })
              (elim (Option-cases (find_username username w.users)) [
                | inl absent ↦
                    ok-bind LogsIn _ (select_username-absent (counted cs) username absent)
                      (user-LogsIn cs none absent)
                | inr (u, found) ↦
                    ok-bind LogsIn _ (select_username-found (counted cs) username u ix found)
                      (user-LogsIn cs (some u) found)
              ])
      ])

  -- While the keys of the table hold, a login goes through: with attempts left, the name and the
  -- password of a stored account, and the account active, it returns tokens.
  pub login-accepts :
      (u : User)
      → (check_login_rate_limit env.builtins.lower
          (w.clock w.clock_reads)
          client_ip
          username
          w.login_attempts).0
        ≡ ok tt
      → find_username username w.users ≡ some u
      → env.crypto.verify password u.password_hash ≡ true
      → u.status ≡ active
      → (tokens : TokenResponse) × (w' : World H) × (login env client_ip username password w
          ≡ (ok tokens, w'))
  login-accepts u left named opens enabled = granted _ refl login-LogsIn
    where
      denied : (e : Error) → Denied e → ⊥
      denied e (too_many over why) = cc
      denied e (unknown absent why) = cc
      denied e (wrong_password u' found shut why) =
          let same : u' ≡ u = cc in let bad = rw same at shut in cc
      denied e (disabled_account u' found opens' off why) =
          let same : u' ≡ u = cc in let bad = rw same at off in cc

      granted :
          (r : Result TokenResponse × World H)
          → login env client_ip username password w ≡ r
          → LogsIn r
          → (tokens : TokenResponse) × (w' : World H) × (login env client_ip username password w
              ≡ (ok tokens, w'))
      granted (ok tokens, w') runs h = (tokens, w', runs)
      granted (err e, w') runs h = absurd (denied e h.0)
