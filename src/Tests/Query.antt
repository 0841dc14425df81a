-- ===== src/Tests/Query.antt =====
-- Queries of sdk/runwhen_capability/repo_query.py at concrete inputs.
use rw_checks_codecollection.Prelude.{
  text_eq, show_ℕ, ℕ, ◌≡◌, refl, ◌≤◌, false, List, [], ◌∷◌, Option, none, some, Text, codes,
}
use rw_checks_codecollection.Json.{
  get, str_len, int_len, Json, str, arr, obj, field, end, items, json_len,
}
use rw_checks_codecollection.Faults.{
  error_code, tree_not_materialized, ok, raise, Exn, file_not_found,
}
use rw_checks_codecollection.Models.{
  dump_entry, dump_result, dump_match, GrepMatch, GrepResult, QueryResult, dump_query, grep_result,
}
use rw_checks_codecollection.Query.Ops.{
  op_name, dispatch, grep_op, ls_op, answer, Repo, op_error, run_op,
}
use rw_checks_codecollection.Query.Run.{
  round, tick, attend, refuse, settle, own_error, push, reserve, held, budget_error, deadline_error,
  own_too_big, baseline, run_query, run_ops, query_budget, run_loop,
}
use rw_checks_codecollection.Query.Fields.{
  required_field, optional_field, globs_field, path_field, int_field,
}
use rw_checks_codecollection.Query.Fit.{fit, entry_size}
use rw_checks_codecollection.Query.Run.Order.{Answers, Ran, run_ops-Answers, run_ops-Ran}
use rw_checks_codecollection.Query.Run.Budget.{run_query-le-budget}

abbrev one_match : GrepMatch
one_match = record { path = codes "a.py"; line = 3; text = codes "x = 1"; before = []; after = [] }

abbrev found : GrepResult
found = record {
  matches = one_match ∷ [];
  truncated = false;
  unreadable = [];
  unreadable_truncated = false;
}

abbrev missing : Exn
missing = record { kind = file_not_found; message = codes "file not found: 'b.py'" }

-- A tree where every grep finds one line and no file or directory can be read.
abbrev small_repo : Repo
small_repo = record {
  check_tree_materialized = ok tt;
  grep_tree = λ _. ok found;
  read_ranges = λ _ _. raise missing;
  find_around = λ _ _ _ _. raise missing;
  ls_tree = λ _ _. raise missing;
  re_search = λ _ _. false;
}

abbrev repr : Option Json → Text
repr _ = codes "None"

abbrev grep_x : Json
grep_x = obj (field "op" (str (codes "grep")) (field "pattern" (str (codes "x")) end))

abbrev ls_b : Json
ls_b = obj (field "op" (str (codes "ls")) (field "path" (str (codes "b")) end))

abbrev two_ops : List Json
two_ops = grep_x ∷ ls_b ∷ []

abbrev two_answers : QueryResult
two_answers = record {
  results =
      record { index = 0; op = some "grep"; result = some (grep_result found); error = none }
      ∷ record {
        index = 1;
        op = some "ls";
        result = none;
        error = some (record { code = "NOT_FOUND"; message = missing.message });
      }
      ∷ [];
  truncated = false;
}

abbrev clock : ℕ → ℕ
clock i = 0

two_ops-ran : run_ops small_repo repr clock 0 two_ops ≡ ok two_answers
unfolding run_ops run_loop round tick attend refuse settle own_error push reserve held budget_error
    deadline_error own_too_big baseline run_op op_error op_name dispatch grep_op ls_op answer
    required_field optional_field globs_field path_field int_field get text_eq error_code fit
    entry_size json_len str_len int_len show_ℕ dump_query dump_entry dump_result dump_match
two_ops-ran = refl

two_ops-answered :
    run_query small_repo repr (λ _. []) clock 0 (arr (items two_ops)) ≡ ok two_answers
unfolding run_query
two_ops-answered = two_ops-ran

run_query-le-budget_example : json_len (dump_query two_answers) ≤ query_budget
run_query-le-budget_example =
    run_query-le-budget small_repo repr (λ _. []) clock 0 (arr (items two_ops)) two_answers
      two_ops-answered

run_ops-Answers_example : Answers 0 two_ops two_answers.results
run_ops-Answers_example = run_ops-Answers small_repo repr clock 0 two_ops two_answers two_ops-ran

run_ops-Ran_example : Ran small_repo repr 0 two_ops two_answers.results
run_ops-Ran_example = run_ops-Ran small_repo repr clock 0 two_ops two_answers two_ops-ran refl

abbrev lost : Exn
lost = record { kind = tree_not_materialized; message = codes "tree missing" }

abbrev lost_repo : Repo
lost_repo = record small_repo { check_tree_materialized = raise lost }
