-- ===== src/Host/Request.antt =====
-- run_request of sdk/runwhen_capability/host.py.
pub mod Setup
pub mod Tasks
use rw_checks_codecollection.Prelude.{
  ℕ, Bool, true, false, List, [], ◌∷◌, ◌++◌, Option, none, some, if◌then◌else◌, Text, codes,
}
use rw_checks_codecollection.Faults.{Exn, Result, ok, raise}
use rw_checks_codecollection.Host.Values.{
  Value, Entries, end, jsonable_entries, resolve_placeholders, kwargs_from_inputs,
}
use rw_checks_codecollection.Host.Cache.{Cache, cache_of, cached_setup_outputs}

-- The exceptions that run_request tells apart, with the message that it passes on.
pub data TaskError : Type 0 where
  credential_not_found : Text → TaskError
  tree_not_materialized : Text → TaskError
  other_error : Text → TaskError

-- A registered function returns a dict, or raises.
pub data Outcome : Type 0 where
  returned : Entries → Outcome
  failed : TaskError → Outcome

-- What a call leaves. `Disk` is what stands under the scope, but for the cache file.
pub record Ran (Disk : Type 0) : Type 0 where
  pub outcome : Outcome
  pub disk : Disk

pub record Spec : Type 0 where
  pub task : Text
  pub inputs : Entries

pub record RequestEnvelope : Type 0 where
  pub setup : Option Spec
  pub tasks : List Spec

pub data SetupStatus : Type 0 where
  setup_ok setup_failed setup_cached not_materialized : SetupStatus

pub record SetupResult : Type 0 where
  pub status : SetupStatus
  pub outputs : Entries
  pub error : Option Text

pub data TaskStatus : Type 0 where
  task_ok task_failed : TaskStatus

pub record TaskResult : Type 0 where
  pub task : Text
  pub status : TaskStatus
  pub outputs : Entries
  pub error : Option Text

pub record ResultEnvelope : Type 0 where
  pub setup : Option SetupResult
  pub tasks : List TaskResult

-- The capability's registry, the disk, and what run_request uses of `re`, `str` and the file system.
-- `saves` tells whether the cache file can be written.
pub record World (Disk : Type 0) : Type 0 where
  pub setups : Text → Option (Entries → Disk → Ran Disk)
  pub tasks : Text → Option (Entries → Disk → Ran Disk)
  pub exists : Disk → Text → Bool
  pub saves : Disk → Cache → Bool
  pub same_inputs : Entries → Entries → Bool
  pub is_word : ℕ → Bool
  pub lower : Text → Text
  pub repr : Text → Text

-- The scope between two requests.
pub record Scope (Disk : Type 0) : Type 0 where
  pub disk : Disk
  pub cache : Option Cache

abbrev pub setup_error : SetupStatus → Text → SetupResult
setup_error status message = record { status = status; outputs = end; error = some message }

abbrev pub setup_done : SetupStatus → Entries → SetupResult
setup_done status outputs = record {
  status = status;
  outputs = jsonable_entries outputs;
  error = none;
}

abbrev pub task_error : Text → Text → TaskResult
task_error task message = record {
  task = task;
  status = task_failed;
  outputs = end;
  error = some message;
}

-- The variables of run_request behind its setup.
pub record Prepared (Disk : Type 0) : Type 0 where
  pub setup : Option SetupResult
  pub setup_outputs : Entries
  pub scope : Scope Disk

module _ {Disk : Type 0} (world : World Disk) where
  abbrev pub without_outputs : SetupResult → Scope Disk → Prepared Disk
  without_outputs result scope = record { setup = some result; setup_outputs = end; scope = scope }

  abbrev pub saved : Disk → Cache → Option Cache → Option Cache
  saved disk cache before = if world.saves disk cache then some cache else before

  -- The `try` of the setup: by what the function came to.
  unfoldable pub after_setup : Spec → Option Cache → Outcome → Disk → Prepared Disk
  after_setup spec before (returned outputs) disk = record {
    setup = some (setup_done setup_ok outputs);
    setup_outputs = outputs;
    scope = record {
      disk = disk;
      cache = saved disk (cache_of spec.task spec.inputs outputs) before;
    };
  }
  after_setup spec before (failed (credential_not_found message)) disk =
      without_outputs
        (setup_error not_materialized
          (codes "setup " ++ world.repr spec.task ++ codes " not materialised: " ++ message))
        (record { disk = disk; cache = before })
  after_setup spec before (failed (tree_not_materialized message)) disk =
      without_outputs (setup_error setup_failed message) (record { disk = disk; cache = before })
  after_setup spec before (failed (other_error message)) disk =
      without_outputs (setup_error setup_failed message) (record { disk = disk; cache = before })

  abbrev pub after_ran : Spec → Option Cache → Ran Disk → Prepared Disk
  after_ran spec before r = after_setup spec before r.outcome r.disk

  abbrev pub setup_or_cached :
      Spec → (Entries → Disk → Ran Disk) → Scope Disk → Option Entries → Prepared Disk
  setup_or_cached spec func scope none =
      after_ran spec scope.cache (func (kwargs_from_inputs world.lower spec.inputs) scope.disk)
  setup_or_cached spec func scope (some outputs) = record {
    setup = some (setup_done setup_cached outputs);
    setup_outputs = outputs;
    scope = scope;
  }

  abbrev pub setup_by : Spec → Option (Entries → Disk → Ran Disk) → Scope Disk → Prepared Disk
  setup_by spec none scope =
      without_outputs
        (setup_error setup_failed (codes "unknown setup task " ++ world.repr spec.task)) scope
  setup_by spec (some func) scope = setup_or_cached spec func scope (
      cached_setup_outputs (world.exists scope.disk) world.same_inputs scope.cache spec.task
        spec.inputs)

  unfoldable pub run_setup : Option Spec → Scope Disk → Prepared Disk
  unfolding after_setup cached_setup_outputs
  run_setup none scope = record { setup = none; setup_outputs = end; scope = scope }
  run_setup (some spec) scope = setup_by spec (world.setups spec.task) scope

  abbrev pub call_task : (Entries → Disk → Ran Disk) → Result Entries → Disk → Ran Disk
  call_task func (raise exc) disk = record {
    outcome = failed (other_error exc.message);
    disk = disk;
  }
  call_task func (ok inputs) disk = func (kwargs_from_inputs world.lower inputs) disk

  abbrev pub task_by : Spec → Option (Entries → Disk → Ran Disk) → Entries → Disk → Ran Disk
  task_by spec none setup_outputs disk = record {
    outcome = failed (other_error (codes "unknown task " ++ world.repr spec.task));
    disk = disk;
  }
  task_by spec (some func) setup_outputs disk =
      call_task func (resolve_placeholders world.is_word world.repr spec.inputs setup_outputs) disk

  -- One round of the loop up to the exception handlers. An unknown task is a failure like any other.
  unfoldable pub run_task : Spec → Entries → Disk → Ran Disk
  unfolding resolve_placeholders
  run_task spec setup_outputs disk = task_by spec (world.tasks spec.task) setup_outputs disk

-- The entry that a task gets. str() of a CredentialNotFoundError, a KeyError, quotes its message.
unfoldable pub result_of : (Text → Text) → Text → Outcome → TaskResult
result_of repr task (returned outputs) = record {
  task = task;
  status = task_ok;
  outputs = jsonable_entries outputs;
  error = none;
}
result_of repr task (failed (credential_not_found message)) = task_error task (repr message)
result_of repr task (failed (tree_not_materialized message)) = task_error task message
result_of repr task (failed (other_error message)) = task_error task message

abbrev pub is_miss : Option SetupResult → Bool
is_miss none = false
is_miss (some r) = elim r.status [ not_materialized ↦ true | _ ↦ false ]

-- What a task's exception does to result.setup.
unfoldable pub setup_after : Outcome → Option SetupResult → Option SetupResult
setup_after (failed (tree_not_materialized message)) setup =
    if is_miss setup
    then setup
    else some (setup_error not_materialized (codes "tree not materialised: " ++ message))
setup_after _ setup = setup

-- The loop over the tasks, from what the setup left.
pub record Finished (Disk : Type 0) : Type 0 where
  pub setup : Option SetupResult
  pub tasks : List TaskResult
  pub disk : Disk

module _ {Disk : Type 0} (world : World Disk) where
  unfoldable pub run_tasks : List Spec → Entries → Option SetupResult → Disk → Finished Disk
  unfolding run_task result_of setup_after
  run_tasks [] setup_outputs setup disk = record { setup = setup; tasks = []; disk = disk }
  run_tasks (spec ∷ specs) setup_outputs setup disk =
      let r = run_task world spec setup_outputs disk in
      let rest = run_tasks specs setup_outputs (setup_after r.outcome setup) r.disk in
      record rest { tasks = result_of world.repr spec.task r.outcome ∷ rest.tasks }

  -- The answer, and the scope that the request leaves.
  unfoldable pub run_request : RequestEnvelope → Scope Disk → ResultEnvelope × Scope Disk
  unfolding run_setup run_tasks
  run_request request scope =
      let p = run_setup world request.setup scope in
      let f = run_tasks request.tasks p.setup_outputs p.setup p.scope.disk in
      (record { setup = f.setup; tasks = f.tasks }, record { disk = f.disk; cache = p.scope.cache })
