-- ===== src/Host.antt =====
-- sdk/runwhen_capability/host.py: run_request, its setup cache and its placeholders. The registered
-- functions, the disk under the scope and Unicode's character classes are parameters.
pub mod Values
pub mod Cache
pub mod Request
