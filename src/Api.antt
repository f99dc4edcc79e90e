-- ===== src/Api.antt =====
-- backend/app/api/v1: the role guard of deps.py, and the routers in the modules below. A handler
-- is given the user that `get_current_user` found.
pub mod Vms
pub mod Console
pub mod Users
pub mod Auth
pub mod Admin
pub mod Images
pub mod Sockets
use knpodly.Base.{Bool, true, false, ◌||◌, not, List, [], ◌∷◌, any}
use knpodly.Exec.{Exec, http_exception, raise_if}
use knpodly.Models.{UserRole, admin, lecturer, student, User}
use knpodly.World.{World}

abbrev pub is_role : UserRole → UserRole → Bool
is_role admin admin = true
is_role lecturer lecturer = true
is_role student student = true
is_role _ _ = false

-- `_checker` of `require_roles(*roles)`
unfoldable pub require_roles : {H : Type 0} → List UserRole → User → Exec (World H) (Unit {0})
require_roles roles user =
    raise_if (not (any (is_role user.role) roles)) (http_exception 403 "Insufficient permissions")

abbrev pub require_admin : {H : Type 0} → User → Exec (World H) (Unit {0})
require_admin = require_roles (admin ∷ [])

abbrev pub require_lecturer : {H : Type 0} → User → Exec (World H) (Unit {0})
require_lecturer = require_roles (admin ∷ lecturer ∷ [])

-- The roles that `require_lecturer` lets pass.
abbrev pub is_staff : UserRole → Bool
is_staff role = any (is_role role) (admin ∷ lecturer ∷ [])
