-- ===== src/Tests/Host.antt =====
-- Requests of sdk/runwhen_capability/host.py at concrete inputs.
use rw_checks_codecollection.Prelude.{
  ◌≡◌, refl, Bool, true, false, [], ◌∷◌, none, some, if◌then◌else◌, codes, text_eq, mem,
}
use rw_checks_codecollection.Host.Values.{
  path, text, Entries, end, entry, lookup, resolve_placeholders, resolve_value, placeholder,
}
use rw_checks_codecollection.Host.Cache.{Cache, restore, all_stand, cached_setup_outputs}
use rw_checks_codecollection.Host.Request.{
  credential_not_found, tree_not_materialized, returned, failed, Ran, Spec, RequestEnvelope, World,
  Scope, run_setup, after_setup, run_task, setup_after, is_miss, run_tasks, run_request,
}
use rw_checks_codecollection.Host.Request.Tasks.{outcomes, EntriesOf, run_request-EntriesOf}

-- The disk is whether the tree is there.
abbrev outputs : Entries
outputs = entry (codes "tree") (path (codes "/w/tree")) end

abbrev inputs : Entries
inputs = entry (codes "repoUrl") (text (codes "u")) end

abbrev open_tree : Entries → Bool → Ran Bool
open_tree kwargs disk = record { outcome = returned outputs; disk = true }

abbrev open_denied : Entries → Bool → Ran Bool
open_denied kwargs disk = record {
  outcome = failed (credential_not_found (codes "git"));
  disk = disk;
}

abbrev read_tree : Entries → Bool → Ran Bool
read_tree kwargs disk = record {
  outcome = if disk then returned kwargs else failed (tree_not_materialized (codes "gone"));
  disk = disk;
}

abbrev world : World Bool
world = record {
  setups = λ task. some open_tree;
  tasks = λ task. some read_tree;
  exists = λ disk p. disk;
  saves = λ disk cache. true;
  same_inputs = λ a b. true;
  is_word = λ c. false;
  lower = λ t. t;
  repr = λ t. t;
}

abbrev denied_world : World Bool
denied_world = record world { setups = λ task. some open_denied }

abbrev open_spec : Spec
open_spec = record { task = codes "open"; inputs = inputs }

abbrev new_scope : Scope Bool
new_scope = record { disk = false; cache = none }

abbrev open_cache : Cache
open_cache = record {
  task = codes "open";
  inputs = inputs;
  outputs = entry (codes "tree") (text (codes "/w/tree")) end;
  path_keys = codes "tree" ∷ [];
}

open_cache-answers :
    cached_setup_outputs (λ p. true) (λ a b. true) (some open_cache) (codes "open") inputs
    ≡ some outputs
unfolding cached_setup_outputs restore mem text_eq all_stand lookup
open_cache-answers = refl

denied-misses : is_miss (run_setup denied_world (some open_spec) new_scope).setup ≡ true
unfolding run_setup after_setup cached_setup_outputs
denied-misses = refl

-- A request without a setup, whose tasks find no tree.
abbrev two_reads : RequestEnvelope
two_reads = record {
  setup = none;
  tasks =
      record { task = codes "read"; inputs = inputs }
      ∷ record { task = codes "grep"; inputs = end }
      ∷ [];
}

run_request-EntriesOf_example :
    EntriesOf two_reads.tasks
      (outcomes world two_reads.tasks end false)
      (run_request world two_reads new_scope).0.tasks
unfolding run_setup
run_request-EntriesOf_example = run_request-EntriesOf world two_reads new_scope

-- The miss of the first task is reported, and the second still has its entry.
two_reads-misses : is_miss (run_request world two_reads new_scope).0.setup ≡ true
unfolding run_request run_setup run_tasks run_task setup_after resolve_placeholders resolve_value
    placeholder
two_reads-misses = refl
