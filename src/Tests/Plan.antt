-- ===== src/Tests/Plan.antt =====
-- Plans of capabilities/rw-checks/tools/_plan.py at concrete inputs.
use rw_checks_codecollection.Prelude.{
  ◌≡◌, refl, Bool, true, ◌&&◌, List, [], ◌∷◌, Option, none, some, if◌then◌else◌, ◌==◌, Text, codes,
  text_eq, text_leb, mem, show_ℕ,
}
use rw_checks_codecollection.Paths.{split_slash}
use rw_checks_codecollection.Checks.Runner.{Applicability}
use rw_checks_codecollection.Checks.Runner.Scope.{all_files}
use rw_checks_codecollection.Checks.Plan.{
  Resolved, lane_b, matches, insert_text, insert_any, eligible_files, add_to, group_files,
  insert_group, lane_invocations,
}
use rw_checks_codecollection.Checks.Plan.Scope.{is_eligible, is_configured}
use rw_checks_codecollection.Checks.Plan.Steps.{Module, plan_files, plan}
use rw_checks_codecollection.Checks.Plan.Honest.{plan-scope}

abbrev config_a : Resolved
config_a = record { path = codes "a/r.toml"; base = codes "a" }

-- Files under "a" have a config, others none.
abbrev config_of : Text → Option Resolved
config_of [] = none
config_of (c ∷ rest) = if c == 97 then some config_a else none

-- A check on every file, run once per config, which requires one.
abbrev per_config : Module
per_config = record {
  name = codes "ruff";
  kind = codes "Python";
  patterns = codes "*.py" ∷ [];
  ci = none;
  required = true;
  config_of = config_of;
  guard = none;
  refusal = λ reason. [];
  narrow = none;
  group = none;
  lane = lane_b;
}

abbrev any_match : Text → Text → Bool
any_match name pattern = true

abbrev inside : Text → Bool
inside path = true

abbrev changed : List Text
changed = codes "a/y.py" ∷ codes "a/x.py" ∷ []

abbrev both_planned : Applicability
both_planned = record {
  invocations =
      record {
        files = codes "a/x.py" ∷ codes "a/y.py" ∷ [];
        config = some (codes "a/r.toml");
        cwd = codes "a";
      }
      ∷ [];
  skipped = none;
  refusals = [];
}

changed-planned : plan any_match inside per_config (some changed) ≡ some both_planned
unfolding plan plan_files eligible_files matches split_slash insert_text insert_any text_leb text_eq
    group_files add_to lane_invocations insert_group
changed-planned = refl

-- A file without a config is left out, and reported.
one-left_out :
    plan any_match inside per_config (some (codes "b.py" ∷ codes "a/x.py" ∷ []))
    ≡ some (record {
      invocations =
          record { files = codes "a/x.py" ∷ []; config = some (codes "a/r.toml"); cwd = codes "a" }
          ∷ [];
      skipped = some (codes "1 of 2 changed Python files have no ruff config");
      refusals = [];
    })
unfolding plan plan_files eligible_files matches split_slash insert_text insert_any text_leb text_eq
    group_files add_to lane_invocations insert_group show_ℕ
one-left_out = refl

x-planned : mem (codes "a/x.py") (all_files both_planned.invocations) ≡ true
unfolding mem text_eq
x-planned = refl

plan-scope_example :
    ((mem (codes "a/x.py") changed
        && is_eligible any_match inside per_config.patterns (codes "a/x.py"))
      && is_configured config_of true (codes "a/x.py"))
    ≡ true
plan-scope_example =
    plan-scope any_match inside per_config changed both_planned refl refl changed-planned
      (codes "a/x.py") x-planned
