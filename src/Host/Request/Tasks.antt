-- ===== src/Host/Request/Tasks.antt =====
-- The tasks of a request of sdk/runwhen_capability/host.py: one entry for each, and when a missing tree is reported.
use rw_checks_codecollection.Prelude.{
  ◌≡◌, refl, Bool, true, false, List, [], ◌∷◌, Option, none, some, Text,
}
use rw_checks_codecollection.Host.Values.{Entries, end, jsonable_entries}
use rw_checks_codecollection.Host.Request.{
  credential_not_found, tree_not_materialized, other_error, Outcome, returned, failed, Spec,
  RequestEnvelope, SetupResult, task_ok, task_failed, TaskResult, World, Scope, run_setup, run_task,
  result_of, setup_after, run_tasks, run_request,
}

module _ {Disk : Type 0} (world : World Disk) where
  -- What each task of the request comes to, each on the disk that those before it leave.
  unfoldable pub outcomes : List Spec → Entries → Disk → List Outcome
  outcomes [] setup_outputs disk = []
  outcomes (spec ∷ specs) setup_outputs disk =
      let r = run_task world spec setup_outputs disk in
      r.outcome ∷ outcomes specs setup_outputs r.disk

-- The entry of a task: its name, and outputs without an error or an error without outputs.
abbrev pub EntryOf : Spec → Outcome → TaskResult → Type 0
EntryOf spec (returned outputs) r =
    (r.task ≡ spec.task)
    × (r.status ≡ task_ok)
    × (r.outputs ≡ jsonable_entries outputs)
    × (r.error ≡ none)
EntryOf spec (failed e) r =
    (r.task ≡ spec.task)
    × (r.status ≡ task_failed)
    × (r.outputs ≡ end)
    × ((message : Text) × (r.error ≡ some message))

abbrev pub EntriesOf : List Spec → List Outcome → List TaskResult → Type 0
EntriesOf [] [] [] = Unit
EntriesOf (spec ∷ specs) (o ∷ os) (r ∷ rs) = EntryOf spec o r × EntriesOf specs os rs
EntriesOf _ _ _ = ⊥

result_of-EntryOf :
    (repr : Text → Text) (spec : Spec) (o : Outcome) → EntryOf spec o (result_of repr spec.task o)
unfolding result_of
result_of-EntryOf repr spec (returned outputs) = (refl, refl, refl, refl)
result_of-EntryOf repr spec (failed (credential_not_found m)) = (refl, refl, refl, (repr m, refl))
result_of-EntryOf repr spec (failed (tree_not_materialized m)) = (refl, refl, refl, (m, refl))
result_of-EntryOf repr spec (failed (other_error m)) = (refl, refl, refl, (m, refl))

abbrev pub is_tree_missing : Outcome → Bool
is_tree_missing (failed (tree_not_materialized message)) = true
is_tree_missing _ = false

module _ {Disk : Type 0} (world : World Disk) where
  run_tasks-EntriesOf :
      (specs : List Spec) (setup_outputs : Entries) (setup : Option SetupResult) (disk : Disk)
      → EntriesOf specs
          (outcomes world specs setup_outputs disk)
          (run_tasks world specs setup_outputs setup disk).tasks
  unfolding outcomes run_tasks
  run_tasks-EntriesOf [] setup_outputs setup disk = tt
  run_tasks-EntriesOf (spec ∷ specs) setup_outputs setup disk =
      let r = run_task world spec setup_outputs disk in
      (
        result_of-EntryOf world.repr spec r.outcome,
        run_tasks-EntriesOf specs setup_outputs (setup_after r.outcome setup) r.disk,
      )

  -- A request gets one entry for each of its tasks, in order: a task that fails is an error of its own
  -- entry, and those after it still run.
  pub run_request-EntriesOf :
      (request : RequestEnvelope) (scope : Scope Disk)
      → let p = run_setup world request.setup scope in
        EntriesOf request.tasks
          (outcomes world request.tasks p.setup_outputs p.scope.disk)
          (run_request world request scope).0.tasks
  unfolding run_request
  run_request-EntriesOf request scope =
      let p = run_setup world request.setup scope in
      run_tasks-EntriesOf request.tasks p.setup_outputs p.setup p.scope.disk
