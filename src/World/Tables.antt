-- ===== src/World/Tables.antt =====
-- The table vm_sessions: its primary key and its partial unique index, which allows a user one
-- session in an active state (infra/postgres/init/001_schema.sql), and an UPDATE by primary key.
pub mod Laws
pub mod Rows
use knpodly.Base.{
  Bool, true, false, not, ◌&&◌, ◌||◌, Option, none, some, List, [], ◌∷◌, any, ◌==◌, if◌then◌else◌,
}
use knpodly.Models.{Uuid, VmSession, is_active}

abbrev pub active : VmSession → Bool
active s = is_active s.state

-- Two rows that the indexes do not allow together.
unfoldable pub conflicts : VmSession → VmSession → Bool
conflicts a b = a.id == b.id || (active a && active b && a.user_id == b.user_id)

unfoldable pub index_ok : List VmSession → Bool
index_ok [] = true
index_ok (s ∷ rows) = not (any (conflicts s) rows) && index_ok rows

-- `UPDATE vm_sessions SET ... WHERE id = ...`
unfoldable pub update_rows : Uuid → (VmSession → VmSession) → List VmSession → List VmSession
update_rows k change [] = []
update_rows k change (s ∷ rows) = (if s.id == k then change s else s) ∷ update_rows k change rows

-- `SELECT ... WHERE id = ...`
unfoldable pub find_session : Uuid → List VmSession → Option VmSession
find_session k [] = none
find_session k (s ∷ rows) = if s.id == k then some s else find_session k rows
