-- ===== src/Query/Run/Total.antt =====
-- The exceptions of run_query of sdk/runwhen_capability/repo_query.py.
use rw_checks_codecollection.Prelude.{
  ℕ, ◌≡◌, ◌≢◌, List, Option, none, some, if_intro, String, Text, arith,
}
use rw_checks_codecollection.Json.{Json, Fields}
use rw_checks_codecollection.Faults.{Exn, Result, ok, raise, error_code}
use rw_checks_codecollection.Query.Fields.{
  Attempt, done, invalid, raised, optional_field, required_field, int_field, globs_field,
  path_field, required_path, symbol_field, ranges_field, no_nul, has_nul, path_or_none,
}
use rw_checks_codecollection.Query.Fields
use rw_checks_codecollection.Query.Ops.{GrepCall, Repo, attempt, read}

-- If it raises, then by an exception that error_code names.
abbrev pub IsCoded {ℓ} : {A : Type ℓ} → Result A → Type 0
IsCoded (ok a) = Unit
IsCoded (raise e) = error_code e.kind ≢ none

-- The same of an op's handler.
record IsSafe {A : Type 0} (a : Attempt A) : Type 0 where
  coded : (e : Exn) → a ≡ raised e → error_code e.kind ≢ none

-- Every call of repo_fs returns or fails by a fault of the caller's input: the tree stays materialized,
-- and there is no bug.
pub record IsCodedRepo (repo : Repo) : Type 0 where
  pub grep_tree : (c : GrepCall) → IsCoded (repo.grep_tree c)
  pub read_ranges : (path : Text) (ranges : List (ℕ × ℕ)) → IsCoded (repo.read_ranges path ranges)
  pub find_around :
      (path pattern : Text) (context windows : ℕ)
      → IsCoded (repo.find_around path pattern context windows)
  pub ls_tree : (path : Option Text) (depth : Option ℕ) → IsCoded (repo.ls_tree path depth)

IsSafe-done : {A : Type 0} (a : A) → IsSafe (done a)
IsSafe-done a = record { coded = λ e h. cc }

IsSafe-invalid : {A : Type 0} (m : Text) → IsSafe {A = A} (invalid m)
IsSafe-invalid m = record { coded = λ e h. cc }

IsSafe-bind :
    {A B : Type 0} (m : Attempt A) (f : A → Attempt B)
    → IsSafe m
    → ((a : A) → IsSafe (f a))
    → IsSafe (Fields.◌>>=◌ m f)
IsSafe-bind (done a) f hm hf = hf a
IsSafe-bind (invalid m) f hm hf = IsSafe-invalid m
IsSafe-bind (raised e) f hm hf = record { coded = λ e' h. hm.coded e' (ground arith) }

IsSafe-attempt : {A : Type 0} (r : Result A) → IsCoded r → IsSafe (attempt r)
IsSafe-attempt (ok a) h = IsSafe-done a
IsSafe-attempt (raise e) h = record { coded = λ e' p. ground (arith, h) }

module _ {A : Type 0} (op : Fields) (key : String) (read : Json → Option A) (expected : Text) where
  IsSafe-required_field : IsSafe (required_field op key read expected)
  unfolding required_field
  IsSafe-required_field = record { coded = λ e h. ground arith }

  IsSafe-optional_field : IsSafe (optional_field op key read expected)
  unfolding optional_field
  IsSafe-optional_field = record { coded = λ e h. ground arith }

IsSafe-no_nul : (path : Text) → IsSafe (no_nul path)
IsSafe-no_nul path = if_intro IsSafe (has_nul path) (IsSafe-invalid _) (IsSafe-done path)

IsSafe-path_or_none : (found : Option Text) → IsSafe (path_or_none found)
IsSafe-path_or_none none = IsSafe-done none
IsSafe-path_or_none (some path) = search (IsSafe-bind, IsSafe-no_nul, IsSafe-done)

ruleset field_rules = (
  IsSafe-done, IsSafe-invalid, IsSafe-bind, IsSafe-attempt, IsSafe-required_field,
  IsSafe-optional_field, IsSafe-no_nul, IsSafe-path_or_none,
)

module _ (op : Fields) where
  IsSafe-int_field : (key : String) (low : ℕ) (high : Option ℕ) → IsSafe (int_field op key low high)
  unfolding int_field
  IsSafe-int_field key low high = IsSafe-optional_field op key _ _

  IsSafe-globs_field : IsSafe (globs_field op)
  unfolding globs_field
  IsSafe-globs_field = IsSafe-optional_field op "globs" _ _

  IsSafe-symbol_field : IsSafe (symbol_field op)
  unfolding symbol_field
  IsSafe-symbol_field = IsSafe-required_field op "symbol" _ _

  IsSafe-ranges_field : IsSafe (ranges_field op)
  unfolding ranges_field
  IsSafe-ranges_field = IsSafe-required_field op "ranges" _ _

  IsSafe-required_path : IsSafe (required_path op)
  unfolding required_path
  IsSafe-required_path = search field_rules

  IsSafe-path_field : IsSafe (path_field op)
  unfolding path_field
  IsSafe-path_field = search field_rules

ruleset op_rules = (
  field_rules, IsSafe-int_field, IsSafe-globs_field, IsSafe-symbol_field, IsSafe-ranges_field,
  IsSafe-required_path, IsSafe-path_field,
)
