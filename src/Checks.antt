-- ===== src/Checks.antt =====
-- capabilities/rw-checks/tools: how a check runs on the changed files of a pull request.
pub mod Batches
pub mod Plan
pub mod Runner
pub mod Failures
