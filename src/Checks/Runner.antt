-- ===== src/Checks/Runner.antt =====
-- run_check and realign_paths of capabilities/rw-checks/tools/_runner.py. A check module is an
-- interface: what it applies to, and the tool's run on one invocation.
pub mod Scope
use rw_checks_codecollection.Prelude.{
  ℕ, ◌+◌, Bool, true, false, ◌&&◌, ◌||◌, List, [], ◌∷◌, ◌++◌, Option, none, some, if◌then◌else◌,
  Text, codes, length, drop, ◌-◌, leb, text_eq, mem,
}
use rw_checks_codecollection.Faults.{Result, ok, ◌>>=◌}
use rw_checks_codecollection.Paths.{path_name}
use rw_checks_codecollection.Findings.{Finding, FindingsResult, keep_if, cap}
use rw_checks_codecollection.Checks.Batches.{batches}

-- _plan.Invocation
pub record Invocation : Type 0 where
  pub files : List Text
  pub config : Option Text
  pub cwd : Text

-- _plan.Applicability
pub record Applicability : Type 0 where
  pub invocations : List Invocation
  pub skipped : Option Text
  pub refusals : List Finding

-- A module of tools/, for one tree.
pub record Check : Type 0 where
  pub applicable : Option (List Text) → Applicability
  pub check : Invocation → Result (List Finding)

-- _common.WHOLE_REPO_PATH
abbrev pub whole_repo_path : Text
whole_repo_path = codes "<repository>"

-- `f.path in allowed or f.path == WHOLE_REPO_PATH`
unfoldable pub is_allowed : List Text → Finding → Bool
unfolding mem text_eq
is_allowed allowed f = mem f.path allowed || text_eq f.path whole_repo_path

-- What the loops of run_check have gathered.
pub record Gathered : Type 0 where
  pub findings : List Finding
  pub checked : ℕ

abbrev pub chunk_of : Invocation → List Text → Invocation
chunk_of inv chunk = record inv { files = chunk }

abbrev pub gathered_with : List Text → List Finding → Gathered → Gathered
gathered_with chunk got later = record {
  findings = keep_if (is_allowed chunk) got ++ later.findings;
  checked = length chunk + later.checked;
}

module _ (module' : Check) where
  -- The loop over the batches of one invocation, before what `later` gathers.
  unfoldable pub run_chunks : Invocation → List (List Text) → Result Gathered → Result Gathered
  unfolding is_allowed
  run_chunks inv [] later = later
  run_chunks inv (chunk ∷ chunks) later = module'.check (chunk_of inv chunk) >>= λ got.
      run_chunks inv chunks later >>= λ rest. ok (gathered_with chunk got rest)

  unfoldable pub run_invocations : List Invocation → Result Gathered
  unfolding run_chunks batches
  run_invocations [] = ok (record { findings = []; checked = 0 })
  run_invocations (inv ∷ invs) = run_chunks inv (batches inv.files) (run_invocations invs)

  unfoldable pub run_check : Option (List Text) → Result FindingsResult
  unfolding run_invocations cap
  run_check changed =
      let a = module'.applicable changed in
      run_invocations a.invocations >>= λ g. ok (cap (a.refusals ++ g.findings) a.skipped g.checked)

-- x.endswith(suffix)
unfoldable pub ends_with : Text → Text → Bool
unfolding text_eq
ends_with suffix x =
    leb (length suffix) (length x) && text_eq (drop (length x - length suffix) x) suffix

-- `x.endswith("/" + f.path) or PurePosixPath(x).name == f.path`
unfoldable pub names_file : Text → Text → Bool
unfolding ends_with path_name text_eq
names_file path x = ends_with (47 ∷ path) x || text_eq (path_name x) path

abbrev pub moved_to : Finding → List Text → Finding
moved_to f (x ∷ []) = record f { path = x }
moved_to f _ = f

unfoldable pub realign : List Text → Finding → Finding
unfolding is_allowed names_file
realign files f = if is_allowed files f then f else moved_to f (keep_if (names_file f.path) files)

abbrev pub realign_paths : List Text → List Finding → List Finding
realign_paths files [] = []
realign_paths files (f ∷ fs) = realign files f ∷ realign_paths files fs
