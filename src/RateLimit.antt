-- ===== src/RateLimit.antt =====
-- backend/app/services/rate_limit.py: the counters of login attempts in Redis. A key holds a number
-- and may have a time from which on it counts as absent (INCR, EXPIRE and DEL of Redis). The
-- lower-casing of Python, which follows the tables of Unicode, is a parameter.
pub mod Windows
use Prim.Native.String.{◌++◌}
use knpodly.Base.{
  ℕ, suc, ℤ, pos, ◌+ℤ◌, leb_ℤ, ltb, String, Bool, true, false, Option, none, some, ◌==◌, str_eq,
  if◌then◌else◌,
}
use knpodly.Exec.{Exec, ok, http_exception, pure, raise_if, ◌>>=◌, ◌>>◌}
use knpodly.Models.{Time}

-- `_WINDOW_SECONDS`, in microseconds
abbrev pub window : ℤ
window = pos 300000000

abbrev pub max_attempts : ℕ
max_attempts = 10

pub record Counter : Type 0 where
  pub attempts : ℕ
  pub expires_at : Option Time

abbrev pub Counters : Type 0
Counters = String → Option Counter

unfoldable pub set_key : Counters → String → Option Counter → Counters
set_key cs key c k = if str_eq key k then c else cs k

abbrev pub is_expired : Time → Option Time → Bool
is_expired now none = false
is_expired now (some t) = leb_ℤ t now

-- The counter, unless it has expired.
abbrev pub live_at : Time → Option Counter → Option Counter
live_at now none = none
live_at now (some c) = if is_expired now c.expires_at then none else some c

abbrev pub bump : Option Counter → Counter
bump none = record { attempts = 1; expires_at = none }
bump (some c) = record c { attempts = suc c.attempts }

-- INCR, which returns the new number
incr : Time → String → Exec Counters ℕ
incr now key cs = let c = bump (live_at now (cs key)) in (ok c.attempts, set_key cs key (some c))

abbrev pub expiring : Time → Option Counter → Option Counter
expiring t none = none
expiring t (some c) = some (record c { expires_at = some t })

-- EXPIRE
expire : Time → String → Time → Exec Counters (Unit {0})
expire now key t cs = (ok tt, set_key cs key (expiring t (live_at now (cs key))))

module _ (lower : String → String) where
  abbrev pub login_key : String → String → String
  login_key ip_address username = "knpodly:login_attempts:" ++ ip_address ++ ":" ++ lower username

  pub check_login_rate_limit : Time → String → String → Exec Counters (Unit {0})
  unfolding incr expire
  check_login_rate_limit now ip_address username = do
    attempts ← incr now (login_key ip_address username)
    if attempts == 1 then expire now (login_key ip_address username) (now +ℤ window) else pure tt
    raise_if (ltb max_attempts attempts)
        (http_exception 429 "Too many login attempts. Please wait a few minutes and try again.")

  unfoldable pub reset_login_rate_limit : String → String → Exec Counters (Unit {0})
  reset_login_rate_limit ip_address username cs =
      (ok tt, set_key cs (login_key ip_address username) none)
