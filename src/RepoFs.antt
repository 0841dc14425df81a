-- ===== src/RepoFs.antt =====
-- sdk/runwhen_capability/repo_fs.py: reading lines and ranges of lines of a file under a byte budget.
pub mod Select
pub mod Ranges
pub mod Read
pub mod Budget
pub mod Content
pub mod Tree
pub mod Walk
pub mod Grep
pub mod Ls
pub mod Reach
pub mod Checkout
