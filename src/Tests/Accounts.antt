-- ===== src/Tests/Accounts.antt =====
-- Accounts and tokens at sample states.
use text.Mathlib.TextPositions.{eq_refl}
use knpodly.Base.{pos, ◌*ℤ◌, ◌≡◌, ◌≢◌, refl, true, none, some, [], arith, ◌+ℤ◌, ◌≤ℤ◌}
use knpodly.Exec.{ok, err, http_exception}
use knpodly.Text.{uuid_str}
use knpodly.Models.{student, disabled, active, minutes}
use knpodly.Security.{days}
use knpodly.World.{World}
use knpodly.World.Accounts.{users_ok, user_conflicts, find_user, find_username}
use knpodly.Libvirt.Fake.{Domains}
use knpodly.RateLimit.{check_login_rate_limit}
use knpodly.RateLimit.Windows.{check_login_rate_limit-verdict}
use knpodly.Api.Users.{
  UserCreate, create_user, reset_password, disable_user, enable_user, set_password, set_status,
}
use knpodly.Api.Users.Access.{Changes, account-Changes}
use knpodly.Api.Users.Creation.{Creates, create_user-Creates}
use knpodly.Api.Auth.{TokenResponse, login, get_current_user}
use knpodly.Api.Auth.Login.{LogsIn, login-LogsIn, login-accepts}
use knpodly.Api.Auth.Tokens.{standing, tick, login-get_current_user, disable_user-get_current_user}
use knpodly.Tests.Tokens.{toy_crypto, toy_crypto-CryptoLaws}
use knpodly.Tests.Samples.{env, ada, leo, world}

abbrev lab : World Domains
lab = world []

lab-users_ok : users_ok lab.users ≡ true
unfolding users_ok user_conflicts
lab-users_ok = refl

abbrev eve : UserCreate
eve = record {
  username = "eve";
  full_name = "Eve";
  email = none;
  password = "secret";
  role = student;
}

create_user-Creates_example :
    Creates env toy_crypto-CryptoLaws lab leo eve lab-users_ok (create_user env leo eve lab)
create_user-Creates_example = create_user-Creates env toy_crypto-CryptoLaws lab leo eve lab-users_ok

account-Changes_example :
    Changes leo 1 lab
      (set_password (env.crypto.hash (lab.uuids lab.uuid_draws) "new"))
      "user.password_reset"
      (reset_password env leo 1 "new" lab)
    × Changes leo 1 lab (set_status disabled) "user.disabled" (disable_user leo 1 lab)
    × Changes leo 1 lab (set_status active) "user.enabled" (enable_user leo 1 lab)
account-Changes_example = account-Changes leo 1 lab env "new" lab-users_ok

login-LogsIn_example :
    LogsIn env lab "10.0.0.7" "ada" "x" lab-users_ok (login env "10.0.0.7" "ada" "x" lab)
login-LogsIn_example = login-LogsIn env lab "10.0.0.7" "ada" "x" lab-users_ok

ada_named : find_username "ada" lab.users ≡ some ada
unfolding find_username
ada_named = refl

ada_found : find_user 1 lab.users ≡ some ada
unfolding find_user
ada_found = refl

first_attempt_left :
    (check_login_rate_limit env.builtins.lower
      (lab.clock lab.clock_reads)
      "10.0.0.7"
      "ada"
      lab.login_attempts).0
    ≡ ok tt
unfolding ◌+ℤ◌
first_attempt_left =
    (check_login_rate_limit-verdict env.builtins.lower "10.0.0.7" "ada" (lab.clock lab.clock_reads)
      [] (lab.clock lab.clock_reads) lab.login_attempts refl tt (omega arith)).0

ada_login :
    (tokens : TokenResponse) × (w' : World Domains) × (login env "10.0.0.7" "ada" "x" lab
      ≡ (ok tokens, w'))
unfolding toy_crypto
ada_login =
    login-accepts env lab "10.0.0.7" "ada" "x" lab-users_ok ada first_attempt_left ada_named
      (eq_refl "x") refl

leo_is_staff : leo.role ≢ student
leo_is_staff e = cc

ada_parses : env.builtins.parse_uuid (uuid_str 1) ≡ some 1
unfolding uuid_str
ada_parses = refl

-- ten seconds later
abbrev later : World Domains
later = record lab { clock_reads = 70 }

later_access :
    later.clock later.clock_reads
    ≤ℤ lab.clock 62 +ℤ minutes env.settings.access_token_expire_minutes
unfolding ◌+ℤ◌ ◌*ℤ◌ minutes
later_access = omega arith

-- A day after, when the access token has long expired.
abbrev day_after : World Domains
day_after = record later { clock = λ n. pos 86400000000 }

later_refresh :
    day_after.clock day_after.clock_reads
    ≤ℤ lab.clock 63 +ℤ days env.settings.refresh_token_expire_days
unfolding ◌+ℤ◌ ◌*ℤ◌ days
later_refresh = omega arith

login-get_current_user_example :
    (get_current_user env ada_login.0.access_token later
      ≡ (standing (find_user 1 later.users), tick later))
    × (find_user 1 ada_login.1.users ≡ some (record ada { last_login_at = some (lab.clock 61) }))
    × (ada.status ≡ active)
    × (get_current_user env ada_login.0.refresh_token day_after
        ≡ (err (http_exception 401 "Could not validate credentials"), tick day_after))
login-get_current_user_example =
    login-get_current_user env lab "10.0.0.7" "ada" "x" ada lab-users_ok ada_named ada_login.0
      ada_login.1 ada_login.2 toy_crypto-CryptoLaws later day_after ada_parses lab-users_ok
      later_access later_refresh

disable_user-get_current_user_example :
    let v' = (disable_user leo 1 later).1 in
    ((disable_user leo 1 later).0 ≡ ok tt)
    × (get_current_user env ada_login.0.access_token v'
        ≡ (err (http_exception 403 "Account disabled"), tick v'))
disable_user-get_current_user_example =
    disable_user-get_current_user env lab "10.0.0.7" "ada" "x" ada lab-users_ok ada_named
      ada_login.0 ada_login.1 ada_login.2 toy_crypto-CryptoLaws leo later ada ada_parses
      lab-users_ok leo_is_staff ada_found later_access

login-accepts_example :
    (tokens : TokenResponse) × (w' : World Domains) × (login env "10.0.0.7" "ada" "x" lab
      ≡ (ok tokens, w'))
unfolding toy_crypto
login-accepts_example =
    login-accepts env lab "10.0.0.7" "ada" "x" lab-users_ok ada first_attempt_left ada_named
      (eq_refl "x") refl
