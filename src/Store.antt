-- ===== src/Store.antt =====
-- The rows that the services read and write, and the store that a unit of work holds.
pub mod Enums
pub mod Errors
pub mod Rows
pub mod Queries
pub use Enums.*
pub use Errors.*
pub use Rows.*
unfoldable pub use Queries.*
