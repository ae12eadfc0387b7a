-- ===== src/Model.antt =====
-- The rows and tables of the database, as the modelled code reads and writes them. A foreign key to a
-- schedule, a room or a request is the row that it refers to, as `select_related` loads it; one to a
-- user, a term or a session is the row's primary key.
mod Enums
mod Rows
mod Db
pub use Enums.*
pub use Rows.*
pub use Db.*
