-- ===== src/Store.antt =====
-- The database that the services of apps/api/src share (packages/db/prisma/schema.prisma), the
-- errors that they throw, and a service method as an action on the database.
mod Marking
mod Rows
mod Monad
pub mod Keeping
pub use Marking.*
pub use Rows.*
pub use Monad.*
