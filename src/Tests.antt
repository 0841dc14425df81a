-- ===== src/Tests.antt =====
-- Runs at concrete inputs, one module for each part of the program.
mod Query
mod Checks
mod Plan
mod Host
mod Serve
mod RepoFs
mod Tree
mod Guards
mod Hcl
mod PathSafe
mod Failures
mod Fit
mod Checkout
