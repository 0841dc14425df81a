-- ===== src/Host/Request/Setup.antt =====
-- The setup of a request of sdk/runwhen_capability/host.py: when it runs, when its cache answers, and when it reports a miss.
use rw_checks_codecollection.Prelude.{
  ◌≡◌, refl, inl, inr, true, Option, none, some, Text, Option-cases,
}
use rw_checks_codecollection.Host.Values.{Entries, kwargs_from_inputs}
use rw_checks_codecollection.Host.Cache.{Cache, cache_of, cached_setup_outputs}
use rw_checks_codecollection.Host.Request.{
  credential_not_found, tree_not_materialized, other_error, Outcome, returned, failed, Ran, Spec,
  setup_ok, World, Scope, Prepared, setup_done, after_setup, run_setup, is_miss,
}

module _ {Disk : Type 0} (world : World Disk) where
  -- The call that a setup makes if its cache does not answer.
  abbrev pub setup_call : Spec → (Entries → Disk → Ran Disk) → Scope Disk → Ran Disk
  setup_call spec func scope = func (kwargs_from_inputs world.lower spec.inputs) scope.disk

  abbrev pub cached_for : Spec → Scope Disk → Option Entries
  cached_for spec scope =
      cached_setup_outputs (world.exists scope.disk) world.same_inputs scope.cache spec.task
        spec.inputs

  lacks :
      (spec : Spec) (before : Option Cache) (o : Outcome) (disk : Disk)
      → is_miss (after_setup world spec before o disk).setup ≡ true
      → (message : Text) × (o ≡ failed (credential_not_found message))
  unfolding after_setup
  lacks spec before (returned outputs) disk k = cc
  lacks spec before (failed (credential_not_found message)) disk k = (message, refl)
  lacks spec before (failed (tree_not_materialized message)) disk k = cc
  lacks spec before (failed (other_error message)) disk k = cc

  -- What a setup that ran leaves, if its outputs are saved.
  abbrev kept : Spec → Entries → Disk → Prepared Disk
  kept spec outputs disk = record {
    setup = some (setup_done setup_ok outputs);
    setup_outputs = outputs;
    scope = record { disk = disk; cache = some (cache_of spec.task spec.inputs outputs) };
  }

  -- A setup reports "not_materialized" only where it is registered, its cache does not answer, and its
  -- function asked for a credential that the request lacks.
  pub run_setup-miss :
      (spec : Spec) (scope : Scope Disk)
      → is_miss (run_setup world (some spec) scope).setup ≡ true
      → (func : Entries → Disk → Ran Disk) × (message : Text) × (world.setups spec.task ≡ some func)
        × (cached_for spec scope ≡ none)
        × ((setup_call spec func scope).outcome ≡ failed (credential_not_found message))
  unfolding run_setup
  run_setup-miss spec scope h = elim (Option-cases (world.setups spec.task)) [
    | inl unknown ↦ cc (rw unknown at h)
    | inr (func, known) ↦ elim (Option-cases (cached_for spec scope)) [
      | inr (outputs, hit) ↦ cc (rw (known, hit) at h)
      | inl miss ↦
          let (message, e) =
            lacks spec scope.cache (setup_call spec func scope).outcome
              (setup_call spec func scope).disk (rw (known, miss) at h) in
          (func, message, known, miss, e)
    ]
  ]
