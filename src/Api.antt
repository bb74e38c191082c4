-- ===== src/Api.antt =====
-- frontend/src/api: the hooks by which the pages read from and write to the server.
pub mod Base
pub mod Policies
pub mod Workflows
pub mod Cases
pub mod Runs
pub mod Library
pub mod Tenancy
pub mod Account
pub mod Queries
pub mod Fresh
