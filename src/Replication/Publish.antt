-- ===== src/Replication/Publish.antt =====
-- `publish` of replication_publish.py. Every write on the published tree leaves the tree before it
-- in a history: an interruption can leave any of those.
mod Run
mod Day
pub mod Covered
pub mod Writes
pub mod Loop
pub mod Days
pub mod Safety
unfoldable pub use Run.*
unfoldable pub use Day.*
