-- ===== src/Models.antt =====
-- crates/riley-leaderboards-core/src/models.rs and error.rs: the data that the parts exchange.
-- A record that holds JSON takes the type `V` of JSON values (`serde_json::Value`).
mod Errors
mod Boards
mod Versions
mod Collections
pub mod Json
pub mod Steps
pub mod Distinct
pub mod Pagination
unfoldable pub use Errors.*
unfoldable pub use Boards.*
unfoldable pub use Versions.*
unfoldable pub use Collections.*
