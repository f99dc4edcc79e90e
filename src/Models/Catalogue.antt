-- ===== src/Models/Catalogue.antt =====
-- backend/app/models/operating_system.py
use knpodly.Base.{ℤ, String, Bool, true, false, Option}
use knpodly.Models.Clock.{Uuid}

pub data OsStatus : Type 0 where
  available coming_soon disabled validating : OsStatus

abbrev pub is_available : OsStatus → Bool
is_available available = true
is_available _ = false

pub record OperatingSystem : Type 0 where
  pub id : Uuid
  pub slug : String
  pub name : String
  pub family : String
  pub package_manager : Option String
  pub architecture : String
  pub description : Option String
  pub icon_path : Option String
  pub default_ram_mb : ℤ
  pub default_vcpus : ℤ
  pub base_image_path : Option String
  pub status : OsStatus
  pub checksum_sha256 : Option String
