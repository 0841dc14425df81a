-- ===== src/Query/Ops.antt =====
-- The five ops of sdk/runwhen_capability/repo_query.py and the table that dispatches them. What they
-- ask of the tree is an interface; RepoFs implements it.
use rw_checks_codecollection.Prelude.{
  ℕ, String, Bool, false, List, ◌++◌, Option, none, some, if◌then◌else◌, Text, codes, text_eq, take,
}
use rw_checks_codecollection.Json.{Json, str, obj, Fields, get}
use rw_checks_codecollection.Models.{
  GrepResult, ReadRangesResult, LsResult, OpResult, grep_result, read_result, ls_result,
  QueryOpResult,
}
use rw_checks_codecollection.Faults.{Result, ok, raise, error_code}
use rw_checks_codecollection.RepoFs.Grep.{hard_grep_max_matches}
use rw_checks_codecollection.Symbols.{definition_pattern, reference_pattern, is_definition_line}
use rw_checks_codecollection.Query.Fields.{
  Attempt, done, invalid, raised, ◌>>=◌, optional_field, required_field, read_text, read_bool,
  int_field, globs_field, path_field, required_path, symbol_field, ranges_field,
}

-- The keyword arguments of grep_tree.
pub record GrepCall : Type 0 where
  pub pattern : Text
  pub globs : Option (List Text)
  pub max_matches : Option ℕ
  pub ignore_case : Bool
  pub context : ℕ
  pub exclude : Option (Text → Bool)

-- What the ops use of repo_fs.py for one tree, and of `re`.
pub record Repo : Type 0 where
  pub check_tree_materialized : Result (Unit {0})
  pub grep_tree : GrepCall → Result GrepResult
  pub read_ranges : Text → List (ℕ × ℕ) → Result ReadRangesResult
  pub find_around : Text → Text → ℕ → ℕ → Result (List (ℕ × ℕ))
  pub ls_tree : Option Text → Option ℕ → Result LsResult
  pub re_search : Text → Text → Bool

abbrev max_grep_context : ℕ
max_grep_context = 20

abbrev max_around_context : ℕ
max_around_context = 200

abbrev default_around_context : ℕ
default_around_context = 20

abbrev around_max_windows : ℕ
around_max_windows = 5

abbrev defs_context : ℕ
defs_context = 2

abbrev pub max_error_message_len : ℕ
max_error_message_len = 500

abbrev or_else {ℓ} : {A : Type ℓ} → Option A → A → A
or_else none d = d
or_else (some a) d = a

-- A call of repo_fs within an op.
abbrev pub attempt {ℓ} : {A : Type ℓ} → Result A → Attempt A
attempt (ok a) = done a
attempt (raise e) = raised e

module _ (repo : Repo) where
  unfoldable pub grep_op : Fields → Attempt OpResult
  grep_op op = do
    pattern ← required_field op "pattern" read_text (codes "a string")
    globs ← globs_field op
    context ← int_field op "context" 0 (some max_grep_context)
    ignore_case ← optional_field op "ignoreCase" read_bool (codes "a boolean")
    max_matches ← int_field op "maxMatches" 1 (some hard_grep_max_matches)
    result ← attempt (
        repo.grep_tree (record {
          pattern = pattern;
          globs = globs;
          max_matches = max_matches;
          ignore_case = or_else ignore_case false;
          context = or_else context 0;
          exclude = none;
        }))
    done (grep_result result)

  abbrev pub read_at_ranges : Fields → Text → Attempt OpResult
  read_at_ranges op path = do
    ranges ← ranges_field op
    result ← attempt (repo.read_ranges path ranges)
    done (read_result result)

  abbrev pub read_around : Fields → Text → Attempt OpResult
  read_around op path = do
    around ← required_field op "around" read_text (codes "a string")
    context ← int_field op "context" 0 (some max_around_context)
    windows ←
        attempt
          (repo.find_around path around (or_else context default_around_context) around_max_windows)
    result ← attempt (repo.read_ranges path windows)
    done (read_result result)

  -- Exactly one of the two fields is given. `around` is there where it is read.
  abbrev pub read_from : Fields → Text → Option Json → Option Json → Attempt OpResult
  read_from op path (some _) none = read_at_ranges op path
  read_from op path none (some _) = read_around op path
  read_from op path _ _ = invalid (codes "read takes exactly one of 'ranges' or 'around'")

  unfoldable pub read_op : Fields → Attempt OpResult
  read_op op = do path ← required_path op; read_from op path (get "ranges" op) (get "around" op)

  unfoldable pub ls_op : Fields → Attempt OpResult
  ls_op op = do
    path ← path_field op
    depth ← int_field op "depth" 1 none
    result ← attempt (repo.ls_tree path depth)
    done (ls_result result)

  unfoldable pub defs_op : Fields → Attempt OpResult
  defs_op op = do
    symbol ← symbol_field op
    globs ← globs_field op
    result ← attempt (
        repo.grep_tree (record {
          pattern = definition_pattern symbol;
          globs = globs;
          max_matches = none;
          ignore_case = false;
          context = defs_context;
          exclude = none;
        }))
    done (grep_result result)

  unfoldable pub refs_op : Fields → Attempt OpResult
  refs_op op = do
    symbol ← symbol_field op
    globs ← globs_field op
    result ← attempt (
        repo.grep_tree (record {
          pattern = reference_pattern symbol;
          globs = globs;
          max_matches = none;
          ignore_case = false;
          context = 0;
          exclude = some (λ line. is_definition_line repo.re_search line symbol);
        }))
    done (grep_result result)

-- The keys of _OPS.
pub data OpName : Type 0 where
  grep read ls defs refs : OpName

abbrev pub op_text : OpName → String
op_text grep = "grep"
op_text read = "read"
op_text ls = "ls"
op_text defs = "defs"
op_text refs = "refs"

abbrev parse_op : Text → Option OpName
parse_op t =
    if text_eq t (codes "grep")
    then some grep
    else if text_eq t (codes "read")
    then some read
    else if text_eq t (codes "ls")
    then some ls
    else if text_eq t (codes "defs")
    then some defs
    else if text_eq t (codes "refs")
    then some refs
    else none

abbrev op_of_field : Option Json → Option OpName
op_of_field (some (str t)) = parse_op t
op_of_field _ = none

unfoldable pub op_name : Json → Option OpName
unfolding text_eq
op_name (obj op) = op_of_field (get "op" op)
op_name _ = none

abbrev pub op_string : Option OpName → Option String
op_string none = none
op_string (some name) = some (op_text name)

unfoldable pub op_error : ℕ → Option OpName → String → Text → QueryOpResult
op_error index op code message = record {
  index = index;
  op = op_string op;
  result = none;
  error = some (record { code = code; message = take max_error_message_len message });
}

abbrev pub not_an_object : Text
not_an_object = codes "op must be a JSON object"

module _ (repo : Repo) where
  -- _OPS[name](tree, op)
  unfoldable pub dispatch : OpName → Fields → Attempt OpResult
  dispatch grep op = grep_op repo op
  dispatch read op = read_op repo op
  dispatch ls op = ls_op repo op
  dispatch defs op = defs_op repo op
  dispatch refs op = refs_op repo op

-- The exception handlers of _run_op.
unfoldable pub answer : ℕ → OpName → Attempt OpResult → Result QueryOpResult
unfolding op_error
answer index name (done result) =
    ok (record { index = index; op = some (op_text name); result = some result; error = none })
answer index name (invalid message) = ok (op_error index (some name) "INVALID_OP" message)
answer index name (raised exc) = elim (error_code exc.kind) [
  | none ↦ raise exc
  | some code ↦ ok (op_error index (some name) code exc.message)
]

module _ (repo : Repo) (repr : Option Json → Text) where
  abbrev pub unknown_op : Fields → Text
  unknown_op op =
      codes "unknown op "
      ++ repr (get "op" op)
      ++ codes "; expected one of ['grep', 'read', 'ls', 'defs', 'refs']"

  -- _run_op on a dict, by the operation that it names.
  abbrev pub run_named : ℕ → Fields → Option OpName → Result QueryOpResult
  run_named index op none = ok (op_error index none "INVALID_OP" (unknown_op op))
  run_named index op (some name) = answer index name (dispatch repo name op)

  unfoldable pub run_op : ℕ → Json → Result QueryOpResult
  unfolding answer op_error
  run_op index (obj op) = run_named index op (op_name (obj op))
  run_op index _ = ok (op_error index none "INVALID_OP" not_an_object)
