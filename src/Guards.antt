-- ===== src/Guards.antt =====
-- capabilities/rw-checks/guards.py: the configurations for which a tool is not run at all.
pub mod Document
pub mod Search
pub mod Verdict
pub mod Files
pub mod Tools
pub mod Safe
pub mod Comments
pub mod Chain
pub mod Sql
pub mod Hcl
