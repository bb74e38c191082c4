-- ===== src/Api/Fresh.antt =====
-- After a write, the queries that show what was written are fetched anew.
pub mod Policies
pub mod Workflows
pub mod Cases
pub mod Library
pub mod Me
pub mod Runs
pub mod Keys
pub mod Writes
mod Examples
