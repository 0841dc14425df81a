-- ===== src/RepoFs/Read.antt =====
-- read_lines, read_ranges and find_around of sdk/runwhen_capability/repo_fs.py. The file system, path
-- confinement, decoding and `re` are an interface.
use rw_checks_codecollection.Prelude.{
  ℕ, zero, suc, ◌+◌, ◌-◌, Bool, true, false, not, ◌&&◌, ◌||◌, List, [], ◌∷◌, ◌++◌, Option, none,
  some, min, max, leb, ◌==◌, if◌then◌else◌, Text, codes, length, take, any,
}
use rw_checks_codecollection.Faults.{
  Kind, path_escapes_tree, binary_file, invalid_pattern, file_not_found, Exn, Result, ok, raise,
  ◌>>=◌,
}
use rw_checks_codecollection.Models.{ReadResult, ReadRange, ReadRangesResult}
use rw_checks_codecollection.Paths.{normalize_path}
use rw_checks_codecollection.RepoFs.Select.{read_budget, Selection, select_lines}
use rw_checks_codecollection.RepoFs.Ranges.{Range, merge_ranges}

-- re.compile: a search, or the text of the exception.
pub data Compiled : Type 0 where
  search_of : (Text → Bool) → Compiled
  bad_pattern : Text → Compiled

-- What these functions use of the file system under one tree, of `re` and of `repr`.
pub record Disk : Type 0 where
  pub check_tree_materialized : Result (Unit {0})
  pub safe_path : Text → Result (Option Text)
  pub is_file : Text → Bool
  pub read_bytes : Text → Result (List ℕ)
  pub decode : List ℕ → Text
  pub compile : Text → Compiled
  pub repr : Text → Text

abbrev pub binary_sniff_len : ℕ
binary_sniff_len = 8192

-- _is_binary
unfoldable pub is_binary : List ℕ → Bool
is_binary data' = any (λ b. b == 0) (take binary_sniff_len data')

-- text.split("\n")
abbrev pub push_char : ℕ → List Text → List Text
push_char c [] = (c ∷ []) ∷ []
push_char c (l ∷ ls) = (c ∷ l) ∷ ls

unfoldable pub split_lines : Text → List Text
split_lines [] = [] ∷ []
split_lines (c ∷ s) = let rest = split_lines s in if c == 10 then [] ∷ rest else push_char c rest

abbrev pub fault : Kind → Text → Exn
fault kind message = record { kind = kind; message = message }

-- `if resolved is None: raise PathEscapesTreeError(...)`
abbrev pub or_escapes : Text → Option Text → Result Text
or_escapes message none = raise (fault path_escapes_tree message)
or_escapes message (some full) = ok full

module _ (disk : Disk) where
  -- _confined
  unfoldable pub confined : Text → Result Text
  confined path = disk.safe_path (normalize_path path) >>= λ resolved.
      or_escapes (codes "path escapes tree: " ++ disk.repr path) resolved

  abbrev unless {ℓ} : {A : Type ℓ} → Bool → Exn → Result A → Result A
  unless b e m = if b then raise e else m

  -- The common head of read_lines, read_ranges and find_around: the lines of a text file in the tree.
  unfoldable pub open_lines : Text → Result (List Text)
  unfolding confined
  open_lines path = do
    full ← confined path
    unless (not (disk.is_file full))
        (fault file_not_found (codes "file not found: " ++ disk.repr path))
        do
          bytes ← disk.read_bytes full
          unless (is_binary bytes) (fault binary_file (codes "binary file: " ++ disk.repr path))
              (ok (split_lines (disk.decode bytes)))

  abbrev default_start : Option ℕ → ℕ
  default_start none = 1
  default_start (some n) = if leb 1 n then n else 1

  abbrev default_end : ℕ → Option ℕ → ℕ
  default_end total none = total
  default_end total (some n) = if leb 1 n && leb n total then n else total

  abbrev read_selected : Text → List Text → ℕ → Selection → ReadResult
  read_selected path lines start s = record {
    path = normalize_path path;
    content = s.content;
    start_line = start;
    end_line = s.actual_end;
    total_lines = length lines;
    truncated = s.truncated;
  }

  unfoldable pub read_lines : Text → Option ℕ → Option ℕ → Result ReadResult
  unfolding open_lines
  read_lines path start_line end_line = disk.check_tree_materialized >>= λ _.
      open_lines path >>= λ lines.
      let start = default_start start_line in
      ok (
        read_selected path lines start
          (select_lines lines start (default_end (length lines) end_line) read_budget))

-- The variables of the loop of read_ranges that it returns.
pub record Filled : Type 0 where
  pub ranges : List ReadRange
  pub truncated : Bool

abbrev pub range_of : ℕ → Selection → ReadRange
range_of start s = record { start = start; stop = s.actual_end; content = s.content }

-- One round: `stop` is the test of the budget, `later` what the rounds after it return.
abbrev pub fill_round : Bool → ℕ → Selection → Filled → Filled
fill_round true start s later = record { ranges = []; truncated = true }
fill_round false start s later = record {
  ranges = range_of start s ∷ later.ranges;
  truncated = s.truncated || later.truncated;
}

-- The loop of read_ranges with `remaining` bytes of the shared budget. A truncated range does not end
-- it: a later range may still fit what is left.
unfoldable pub fill : List Text → ℕ → List Range → Filled
fill lines remaining [] = record { ranges = []; truncated = false }
fill lines remaining ((start, end) ∷ rest) =
    let s = select_lines lines start end remaining in
    let later = fill lines (remaining - s.used) rest in fill_round (remaining == 0) start s later

-- raw_line.rstrip("\r")
abbrev pub strip_cr : Text → Text
strip_cr [] = []
strip_cr (c ∷ s) = elim (strip_cr s) [ [] ↦ if c == 13 then [] else c ∷ [] | d ∷ t ↦ c ∷ d ∷ t ]

-- The loop of find_around from line `line_no` on, with room for `room` windows.
unfoldable pub windows_from : (Text → Bool) → ℕ → ℕ → ℕ → ℕ → List Text → List Range
windows_from search context total zero line_no lines = []
windows_from search context total (suc room) line_no [] = []
windows_from search context total (suc room) line_no (line ∷ lines) =
    let found = windows_from search context total room (suc line_no) lines in
    let missed = windows_from search context total (suc room) (suc line_no) lines in
    if search (strip_cr line)
    then (max 1 (line_no - context), min total (line_no + context)) ∷ found
    else missed

module _ (disk : Disk) where
  abbrev pub filled : Text → List Text → List Range → ReadRangesResult
  filled path lines ranges =
      let f = fill lines read_budget (merge_ranges ranges (length lines)) in
      record {
        path = normalize_path path;
        ranges = f.ranges;
        total_lines = length lines;
        truncated = f.truncated;
      }

  unfoldable pub read_ranges : Text → List Range → Result ReadRangesResult
  unfolding open_lines fill
  read_ranges path ranges = disk.check_tree_materialized >>= λ _.
      open_lines disk path >>= λ lines. ok (filled path lines ranges)

  unfoldable pub find_around : Text → Text → ℕ → ℕ → Result (List Range)
  unfolding open_lines windows_from
  find_around path pattern context max_windows = disk.check_tree_materialized >>= λ _.
      elim (disk.compile pattern) [
        | bad_pattern exc ↦ raise (fault invalid_pattern (codes "invalid pattern: " ++ exc))
        | search_of search ↦ open_lines disk path >>= λ lines.
            ok (windows_from search context (length lines) max_windows 1 lines)
      ]
