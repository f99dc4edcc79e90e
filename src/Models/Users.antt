-- ===== src/Models/Users.antt =====
-- backend/app/models/user.py
use knpodly.Base.{String, Bool, true, false, Option}
use knpodly.Models.Clock.{Uuid, Time}

pub data UserRole : Type 0 where
  admin lecturer student : UserRole

pub data UserStatus : Type 0 where
  active disabled : UserStatus

abbrev pub is_student : UserRole → Bool
is_student student = true
is_student _ = false

pub record User : Type 0 where
  pub id : Uuid
  pub username : String
  pub email : Option String
  pub full_name : String
  pub password_hash : String
  pub role : UserRole
  pub status : UserStatus
  pub created_by : Option Uuid
  pub created_at : Time
  pub last_login_at : Option Time
