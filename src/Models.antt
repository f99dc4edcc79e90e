-- ===== src/Models.antt =====
-- backend/app/models: the rows of the database tables, one record for each mapped class.
-- A UUID is its 128-bit number, and a timestamp counts the microseconds since the epoch (an
-- integer, since `timedelta` arithmetic may go below it).
pub mod Clock
pub mod Users
pub mod Sessions
pub mod Catalogue
pub mod Admin
unfoldable pub use Clock.*
pub use Users.*
pub use Sessions.*
pub use Catalogue.*
pub use Admin.*
