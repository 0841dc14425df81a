-- ===== src/RepoFs/Budget.antt =====
-- The shared byte budget of read_ranges of sdk/runwhen_capability/repo_fs.py.
use rw_checks_codecollection.Prelude.{
  ℕ, ◌+◌, ◌-◌, ◌≤◌, ◌≡◌, List, [], ◌∷◌, Text, length, byte_len, arith, subst,
}
use rw_checks_codecollection.Faults.{ok, >>=-eq-ok, ok-injective}
use rw_checks_codecollection.Models.{ReadRange, ReadRangesResult}
use rw_checks_codecollection.RepoFs.Select.{read_budget, select_lines, select_lines_bound}
use rw_checks_codecollection.RepoFs.Ranges.{Range, merge_ranges}
use rw_checks_codecollection.RepoFs.Read.{Disk, open_lines, fill, read_ranges}

-- The bytes of all the ranges' contents.
abbrev pub content_bytes : List ReadRange → ℕ
content_bytes [] = 0
content_bytes (r ∷ rs) = byte_len r.content + content_bytes rs

fill-le-budget :
    (lines : List Text) (remaining : ℕ) (ranges : List Range)
    → content_bytes (fill lines remaining ranges).ranges ≤ remaining
unfolding fill
fill-le-budget lines remaining [] = omega arith
fill-le-budget lines remaining ((start, end) ∷ rest) =
    let s = select_lines lines start end remaining in
    let later = fill-le-budget lines (remaining - s.used) rest in
    ground (arith, later, select_lines_bound lines start end remaining)

-- A successful read_ranges holds at most READ_BUDGET bytes of content over all its ranges together.
pub read_ranges-le-budget :
    (disk : Disk) (path : Text) (ranges : List Range) (r : ReadRangesResult)
    → read_ranges disk path ranges ≡ ok r
    → content_bytes r.ranges ≤ read_budget
unfolding read_ranges
read_ranges-le-budget disk path ranges r h =
    let (_, _, opened) = >>=-eq-ok disk.check_tree_materialized _ h in
    let (lines, _, made) = >>=-eq-ok (open_lines disk path) _ opened in
    let bound = fill-le-budget lines read_budget (merge_ranges ranges (length lines)) in
    subst (λ q. content_bytes q.ranges ≤ read_budget) (ok-injective made) bound
