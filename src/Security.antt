-- ===== src/Security.antt =====
-- backend/app/core/security.py. Password hashing (passlib with bcrypt) and the signing of tokens
-- (python-jose) are packages outside of the repository, so they are the fields of `Crypto`, made
-- for the key and the algorithm of the settings.
use knpodly.Base.{ℕ, ℤ, ◌+ℤ◌, ◌*ℤ◌, String, Bool, Option, none, some, ◌≡◌, true, ◌≤ℤ◌}
use knpodly.Models.{Time, minutes}
use knpodly.Config.{Settings}

-- The claims that the backend signs.
pub record Claims : Type 0 where
  pub sub : String
  pub role : Option String
  pub exp : Time
  pub kind : String

-- What it reads of a decoded token: `payload.get("type")` and `payload["sub"]`.
pub record Payload : Type 0 where
  pub kind : Option String
  pub sub : Option String

abbrev pub payload_of : Claims → Payload
payload_of c = record { kind = some c.kind; sub = some c.sub }

pub record Crypto : Type 0 where
  -- `pwd_context.hash`, for the salt that it draws
  pub hash : ℕ → String → String
  pub verify : String → String → Bool
  -- `jwt.encode`
  pub encode : Claims → String
  -- `jwt.decode` at a time; `none` stands for JWTError
  pub decode : Time → String → Option Payload

-- What the packages document: a password verifies against its own hash, and a token that was
-- signed with the key decodes to its claims until it expires.
pub record CryptoLaws (c : Crypto) : Type 0 where
  pub verify-hash : (salt : ℕ) (password : String) → c.verify password (c.hash salt password) ≡ true
  pub decode-encode :
      (now : Time) (claims : Claims)
      → now ≤ℤ claims.exp
      → c.decode now (c.encode claims) ≡ some (payload_of claims)

-- `timedelta(days=d)`, in microseconds
unfoldable pub days : ℤ → ℤ
unfolding ◌*ℤ◌
days d = d *ℤ 86400000000

module _ (settings : Settings) where
  -- The claims of `create_access_token(subject, role)` and `create_refresh_token(subject)`, at the
  -- time that they read.
  abbrev pub access_claims : Time → String → String → Claims
  access_claims now subject role = record {
    sub = subject;
    role = some role;
    exp = now +ℤ minutes settings.access_token_expire_minutes;
    kind = "access";
  }

  abbrev pub refresh_claims : Time → String → Claims
  refresh_claims now subject = record {
    sub = subject;
    role = none;
    exp = now +ℤ days settings.refresh_token_expire_days;
    kind = "refresh";
  }
