-- ===== src/Tests/Tree.antt =====
-- Reads by sdk/runwhen_capability/repo_query.py of a concrete tree of sdk/runwhen_capability/repo_fs.py.
use rw_checks_codecollection.Prelude.{
  ◌≡◌, refl, ◌≤◌, false, true, List, [], ◌∷◌, none, some, codes, text_eq, show_ℕ, pos,
}
use rw_checks_codecollection.Json.{
  Json, int, str, arr, obj, nil, cons, field, end, get, json_len, str_len, int_len,
}
use rw_checks_codecollection.Faults.{ok}
use rw_checks_codecollection.Models.{
  ReadRange, OpResult, QueryOpResult, GrepResult, LsResult, read_result, dump_entry, dump_result,
  dump_range,
}
use rw_checks_codecollection.Paths.{normalize_path}
use rw_checks_codecollection.Query.Fields.{
  required_field, optional_field, required_path, ranges_field,
}
use rw_checks_codecollection.Query.Ops.{run_op, op_name, dispatch, read_op, answer, op_error}
use rw_checks_codecollection.Query.Fit.{
  entry_size, with_result, trim, trim_read, trim_ranges, range_head, clip_content, clip_search,
  cut_last_line,
}
use rw_checks_codecollection.RepoFs.Select.{select_lines, select_loop}
use rw_checks_codecollection.RepoFs.Ranges.{merge_ranges, sort, insert, merge_from}
use rw_checks_codecollection.RepoFs.Read.{
  Disk, bad_pattern, open_lines, confined, is_binary, split_lines, fill, read_ranges,
}
use rw_checks_codecollection.RepoFs.Tree.{repo_of, run_op-trim-fits}

-- A tree where every path is a file of three lines.
abbrev flat_disk : Disk
flat_disk = record {
  check_tree_materialized = ok tt;
  safe_path = λ path. ok (some path);
  is_file = λ path. true;
  read_bytes = λ path. ok (codes "one\ntwo\nthree");
  decode = λ bytes. bytes;
  compile = λ pattern. bad_pattern [];
  repr = λ path. path;
}

abbrev no_matches : GrepResult
no_matches = record {
  matches = [];
  truncated = false;
  unreadable = [];
  unreadable_truncated = false;
}

abbrev no_entries : LsResult
no_entries = record {
  entries = [];
  truncated = false;
  unreadable = [];
  unreadable_truncated = false;
}

abbrev read_all_lines : Json
read_all_lines = obj (
    field "op" (str (codes "read")) (
      field "path" (str (codes "a"))
        (field "ranges" (arr (cons (arr (cons (int (pos 1)) (cons (int (pos 3)) nil))) nil)) end)))

abbrev all_lines : List ReadRange → OpResult
all_lines ranges =
    read_result (record { path = codes "a"; ranges = ranges; total_lines = 3; truncated = false })

abbrev three_read : QueryOpResult
three_read = record {
  index = 0;
  op = some "read";
  result =
      some (all_lines (record { start = 1; stop = 3; content = codes "one\ntwo\nthree" } ∷ []));
  error = none;
}

read_all_lines-ran :
    run_op
      (repo_of flat_disk (λ call. ok no_matches) (λ path depth. ok no_entries) (λ p t. false))
      (λ value. [])
      0
      read_all_lines
    ≡ ok three_read
unfolding run_op op_name dispatch read_op answer op_error required_field optional_field
    required_path ranges_field get text_eq read_ranges open_lines confined is_binary split_lines
    normalize_path fill merge_ranges sort insert merge_from select_lines select_loop
read_all_lines-ran = refl

abbrev first_two : OpResult
first_two = read_result (record {
  path = codes "a";
  ranges = record { start = 1; stop = 2; content = codes "one\ntwo" } ∷ [];
  total_lines = 3;
  truncated = true;
})

three_read-trimmed : trim three_read three_read.result 165 ≡ some first_two
unfolding trim trim_read trim_ranges range_head clip_content clip_search cut_last_line entry_size
    json_len str_len int_len show_ℕ dump_entry dump_result dump_range
three_read-trimmed = refl

run_op-trim-fits_example : entry_size (with_result three_read first_two) ≤ 165
run_op-trim-fits_example =
    run_op-trim-fits flat_disk (λ call. ok no_matches) (λ path depth. ok no_entries) (λ p t. false)
      (λ value. []) 0 read_all_lines three_read 165 first_two read_all_lines-ran three_read-trimmed
