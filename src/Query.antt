-- ===== src/Query.antt =====
-- sdk/runwhen_capability/repo_query.py: the `query` task, a batch of ops against one tree whose
-- whole answer is held under a byte budget and a time budget.
pub mod Fields
pub mod Ops
pub mod Fit
pub mod Run
