-- ===== src/Api/Auth/Tokens.antt =====
-- What the tokens of `login` are good for: `get_current_user`, by what the table says then.
use mathlib.Core.Path.{subst}
use knpodly.Base.{
  ◌≢◌, suc, ◌≡◌, refl, sym, ◌∙◌, inl, inr, String, true, not, Option, none, some, ◌+ℤ◌, ◌≤ℤ◌, ap,
  arith, Bool-cases, Option-cases, if◌then◌else◌,
}
use knpodly.Exec.{Result, ok, err, http_exception, pure, raise_if, ◌>>=◌, ◌>>◌}
use knpodly.Exec.Runs.{
  Runs, Runs-refl, Runs-bind-ok, Runs-bind-err, Runs-raise_if-pass, Runs-raise_if-fail,
}
use knpodly.Text.{uuid_str}
use knpodly.Models.{student, Uuid, Time, minutes, User, UserStatus, active, disabled}
use knpodly.Security.{CryptoLaws, access_claims, refresh_claims, days}
use knpodly.World.{World, Env, read_clock}
use knpodly.World.Accounts.{users_ok, find_user, find_username, select_user}
use knpodly.World.Accounts.Laws.{
  KeepsKeys, users_ok-update, find_user-update, find_user-username, find_user-id, select_user-found,
  select_user-absent,
}
use knpodly.Api.Users.{set_status, disable_user}
use knpodly.Api.Users.Access.{Changes, account-Changes}
use knpodly.Api.Auth.{
  TokenResponse, is_enabled, mark_login, login, get_current_user, token_user, subject_of,
  require_known,
}
use knpodly.Api.Auth.Login.{LogsIn, Granted, login-LogsIn}

abbrev pub tick : {H : Type 0} → World H → World H
tick v = record v { clock_reads = suc v.clock_reads }

-- The answer for the row of the token's subject.
abbrev pub standing : Option User → Result User
standing none = err (http_exception 401 "Could not validate credentials")
standing (some u) =
    if is_enabled u.status then ok u else err (http_exception 403 "Account disabled")

module _ {H : Type 0} (env : Env H) (laws : CryptoLaws env.crypto) (v : World H) where
  -- The row that a user's key finds decides.
  known-Runs :
      (k : Uuid)
      → users_ok v.users ≡ true
      → Runs
          (do
            found ← select_user k
            user ← require_known env found
            raise_if (not (is_enabled user.status)) (http_exception 403 "Account disabled")
            pure user)
          (tick v)
          (standing (find_user k v.users), tick v)
  unfolding require_known
  known-Runs k ix = elim (Option-cases (find_user k v.users)) [
    | inl absent ↦ Runs-bind-ok _ (select_user-absent (tick v) k absent) (record {
      at = (Runs-bind-err _ (Runs-refl (require_known env none) (tick v))).at ∙ rw absent refl;
    })
    | inr (u, found) ↦ Runs-bind-ok _ (select_user-found (tick v) k u ix found) (
        Runs-bind-ok _ (Runs-refl (require_known env (some u)) (tick v))
          (elim (Bool-cases (is_enabled u.status)) [
            | inl on ↦
                Runs-bind-ok _ (Runs-raise_if-pass _ (tick v) (rw on refl))
                  (record { at = rw (found, on) refl })
            | inr off ↦ record {
              at =
                  (Runs-bind-err _ (Runs-raise_if-fail _ (tick v) (rw off refl))).at
                  ∙ rw (found, off) refl;
            }
          ]))
  ]

  -- An access token that has not expired.
  access-Runs :
      (k : Uuid) (now : Time) (subject role : String)
      → users_ok v.users ≡ true
      → env.builtins.parse_uuid subject ≡ some k
      → v.clock v.clock_reads ≤ℤ now +ℤ minutes env.settings.access_token_expire_minutes
      → Runs
          (get_current_user env (env.crypto.encode (access_claims env.settings now subject role)))
          v
          (standing (find_user k v.users), tick v)
  unfolding get_current_user token_user subject_of
  access-Runs k now subject role ix parses within =
      let reads =
        laws.decode-encode (v.clock v.clock_reads) (access_claims env.settings now subject role)
          within in
      Runs-bind-ok _ (Runs-refl read_clock v) (
        Runs-bind-ok _ {a = k} (record { at = rw (reads, parses, require_known) refl })
          (known-Runs k ix))

  -- A refresh token is none for `get_current_user`.
  refresh-Runs :
      (now : Time) (subject : String)
      → v.clock v.clock_reads ≤ℤ now +ℤ days env.settings.refresh_token_expire_days
      → Runs
          (get_current_user env (env.crypto.encode (refresh_claims env.settings now subject)))
          v
          (err (http_exception 401 "Could not validate credentials"), tick v)
  unfolding get_current_user token_user
  refresh-Runs now subject within =
      let reads =
        laws.decode-encode (v.clock v.clock_reads) (refresh_claims env.settings now subject)
          within in
      Runs-bind-ok _ (Runs-refl read_clock v)
        (Runs-bind-err _ (record { at = rw (reads, require_known) refl }))

mark_login-KeepsKeys : (now : Time) → KeepsKeys (mark_login now)
mark_login-KeepsKeys now = record { id = λ u. refl; username = λ u. refl; email = λ u. refl }

set_status-KeepsKeys : (status : UserStatus) → KeepsKeys (set_status status)
set_status-KeepsKeys status = record { id = λ u. refl; username = λ u. refl; email = λ u. refl }

-- Staff can disable a stored account: the request goes through, and the key then stands for a
-- disabled account.
disable_user-stores :
    {H : Type 0} (env : Env H) (actor : User) (k : Uuid) (v : World H) (u : User)
    → users_ok v.users ≡ true
    → actor.role ≢ student
    → find_user k v.users ≡ some u
    → ((disable_user actor k v).0 ≡ ok tt)
      × (users_ok (disable_user actor k v).1.users ≡ true)
      × (standing (find_user k (disable_user actor k v).1.users)
          ≡ err (http_exception 403 "Account disabled"))
      × ((disable_user actor k v).1.clock (disable_user actor k v).1.clock_reads
          ≡ v.clock v.clock_reads)
disable_user-stores {H} env actor k v u ix staff found =
    outcome (disable_user actor k v) (account-Changes actor k v env "" ix).1
  where
    outcome :
        (r : Result (Unit {0}) × World H)
        → Changes actor k v (set_status disabled) "user.disabled" r
        → (r.0 ≡ ok tt)
          × (users_ok r.1.users ≡ true)
          × (standing (find_user k r.1.users) ≡ err (http_exception 403 "Account disabled"))
          × (r.1.clock r.1.clock_reads ≡ v.clock v.clock_reads)
    outcome (err e, v') (same, inl (student_role, why)) = absurd (staff student_role)
    outcome (err e, v') (same, inr (absent, why)) = cc
    outcome (ok _, v') (row, not_student, at, stored, recorded, time) =
        let keeps = set_status-KeepsKeys disabled in
        let own = find_user-id k v.users row at in
        rw stored (
          refl,
          users_ok-update row.id _ keeps v.users ∙ ix,
          rw (find_user-update row.id _ keeps k v.users row at, own) (ground arith),
          time,
        )

module _ {H : Type 0} (env : Env H) (w : World H) (client_ip username password : String) (u : User)
    (ix : users_ok w.users ≡ true) (named : find_username username w.users ≡ some u)
    (tokens : TokenResponse) (w' : World H)
    (granted : login env client_ip username password w ≡ (ok tokens, w')) where
  login-Granted : Granted env w client_ip username password ix u tokens w'
  login-Granted =
      let (u', g) =
        subst (LogsIn env w client_ip username password ix) granted
          (login-LogsIn env w client_ip username password ix) in
      subst (λ (x : User). Granted env w client_ip username password ix x tokens w')
        (some_injective (sym g.named ∙ named)) g
    where
      some_injective : {a b : User} → some a ≡ some b → a ≡ b
      some_injective e = cc

  -- What the table says of the user after the login.
  login-find_user :
      (find_user u.id w'.users ≡ some (mark_login (w.clock (suc w.clock_reads)) u))
      × (users_ok w'.users ≡ true)
  login-find_user =
      let g = login-Granted in
      let keeps = mark_login-KeepsKeys (w.clock (suc w.clock_reads)) in
      let before = find_user-username username w.users u ix named in
      rw (g.marked) (
        ground (arith, find_user-update u.id _ keeps u.id w.users u before),
        users_ok-update u.id _ keeps w.users ∙ ix,
      )

  -- Whatever happens after a login of `u`, in any state `v` in which the access token has not expired
  -- it stands for the row that the table then has for the id of `u`: that user is found if the
  -- account is active, a disabled account is answered with status 403 and a missing one with status
  -- 401. Right after the login the row is the one of `u` with the new time of its last login and
  -- nothing else changed, and is active. In any state `late` in which the refresh token has not
  -- expired, the access token expired or not, the refresh token gives status 401. Nothing but the
  -- clock changes. This holds for a signature and a reading of UUIDs that undo the writing of them.
  pub login-get_current_user :
      (laws : CryptoLaws env.crypto) (v late : World H)
      → env.builtins.parse_uuid (uuid_str u.id) ≡ some u.id
      → users_ok v.users ≡ true
      → v.clock v.clock_reads
        ≤ℤ w.clock (suc (suc w.clock_reads)) +ℤ minutes env.settings.access_token_expire_minutes
      → late.clock late.clock_reads
        ≤ℤ w.clock (suc (suc (suc w.clock_reads))) +ℤ days env.settings.refresh_token_expire_days
      → (get_current_user env tokens.access_token v ≡ (standing (find_user u.id v.users), tick v))
        × (find_user u.id w'.users
            ≡ some (record u { last_login_at = some (w.clock (suc w.clock_reads)) }))
        × (u.status ≡ active)
        × (get_current_user env tokens.refresh_token late
            ≡ (err (http_exception 401 "Could not validate credentials"), tick late))
  login-get_current_user laws v late parses ix' within within' =
      let g = login-Granted in
      (
        rw (g.access) (access-Runs env laws v u.id _ _ _ ix' parses within).at,
        login-find_user.0,
        g.enabled,
        rw (g.refresh) (refresh-Runs env laws late _ _ within').at,
      )

  -- In any later state, lecturers and admins can disable the user's account while it is stored; the
  -- request goes through, and after it the access token of the earlier login is answered with
  -- status 403 although it has not expired.
  pub disable_user-get_current_user :
      (laws : CryptoLaws env.crypto) (actor : User) (v : World H) (row : User)
      → env.builtins.parse_uuid (uuid_str u.id) ≡ some u.id
      → users_ok v.users ≡ true
      → actor.role ≢ student
      → find_user u.id v.users ≡ some row
      → v.clock v.clock_reads
        ≤ℤ w.clock (suc (suc w.clock_reads)) +ℤ minutes env.settings.access_token_expire_minutes
      → let v' = (disable_user actor u.id v).1 in
        ((disable_user actor u.id v).0 ≡ ok tt)
        × (get_current_user env tokens.access_token v'
            ≡ (err (http_exception 403 "Account disabled"), tick v'))
  disable_user-get_current_user laws actor v row parses ix' staff found within =
      let g = login-Granted in
      let v' = (disable_user actor u.id v).1 in
      let (done, stored, stands, time) = disable_user-stores env actor u.id v row ix' staff found in
      (
        done,
        rw (g.access) (
            (access-Runs env laws v' u.id _ _ _ stored parses (rw time within)).at
            ∙ ap (λ (r : Result User). let x : Result User × World H = (r, tick v') in x) stands),
      )
