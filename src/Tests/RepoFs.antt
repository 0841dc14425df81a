-- ===== src/Tests/RepoFs.antt =====
-- Reads of sdk/runwhen_capability/repo_fs.py at concrete inputs.
use rw_checks_codecollection.Prelude.{
  ◌≡◌, refl, ◌≤◌, true, false, List, [], ◌∷◌, some, Text, codes, map,
}
use rw_checks_codecollection.Faults.{ok}
use rw_checks_codecollection.Models.{ReadRangesResult}
use rw_checks_codecollection.Paths.{normalize_path}
use rw_checks_codecollection.RepoFs.Select.{read_budget, select_lines, select_loop}
use rw_checks_codecollection.RepoFs.Ranges.{
  Range, merge_ranges, sort, insert, merge_from, clamp, covered, covered-merge_ranges,
}
use rw_checks_codecollection.RepoFs.Read.{
  Disk, bad_pattern, open_lines, confined, is_binary, split_lines, fill, read_ranges,
}
use rw_checks_codecollection.RepoFs.Budget.{content_bytes, read_ranges-le-budget}

abbrev three_lines : List Text
three_lines = codes "one" ∷ codes "two" ∷ codes "three" ∷ []

-- A tree where every path is a file of three lines.
abbrev small_disk : Disk
small_disk = record {
  check_tree_materialized = ok tt;
  safe_path = λ path. ok (some path);
  is_file = λ path. true;
  read_bytes = λ path. ok (codes "one\ntwo\nthree");
  decode = λ bytes. bytes;
  compile = λ pattern. bad_pattern [];
  repr = λ path. path;
}

abbrev asked : List Range
asked = (3, 9) ∷ (1, 1) ∷ []

abbrev both_read : ReadRangesResult
both_read = record {
  path = codes "a";
  ranges =
      record { start = 1; stop = 1; content = codes "one" }
      ∷ record { start = 3; stop = 3; content = codes "three" }
      ∷ [];
  total_lines = 3;
  truncated = false;
}

asked-read : read_ranges small_disk (codes "a") asked ≡ ok both_read
unfolding read_ranges open_lines confined is_binary split_lines normalize_path fill merge_ranges
    sort insert merge_from select_lines select_loop
asked-read = refl

read_ranges-le-budget_example : content_bytes both_read.ranges ≤ read_budget
read_ranges-le-budget_example =
    read_ranges-le-budget small_disk (codes "a") asked both_read asked-read

covered-merge_ranges_example :
    covered 2 (merge_ranges ((3, 5) ∷ (1, 2) ∷ []) 9)
    ≡ covered 2 (map (clamp 9) ((3, 5) ∷ (1, 2) ∷ []))
covered-merge_ranges_example = covered-merge_ranges 2 ((3, 5) ∷ (1, 2) ∷ []) 9
