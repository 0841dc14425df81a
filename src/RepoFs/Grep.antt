-- ===== src/RepoFs/Grep.antt =====
-- grep_tree of sdk/runwhen_capability/repo_fs.py, over the events of the walk of Walk.antt.
pub mod Laws
pub mod Complete
use rw_checks_codecollection.Prelude.{
  ℕ, zero, suc, ◌+◌, ◌-◌, Bool, true, false, not, ◌&&◌, ◌||◌, List, [], ◌∷◌, ◌++◌, Option, none,
  some, min, ltb, leb, ◌==◌, if◌then◌else◌, Text, codes, length, take, drop, map, any,
}
use rw_checks_codecollection.Faults.{invalid_pattern, Result, ok, raise, ◌>>=◌}
use rw_checks_codecollection.Models.{GrepMatch, GrepResult}
use rw_checks_codecollection.Paths.{split_slash, has_slash}
use rw_checks_codecollection.RepoFs.Select.{clip_grep_line}
use rw_checks_codecollection.RepoFs.Read.{
  Compiled, search_of, bad_pattern, fault, is_binary, split_lines, strip_cr,
}
use rw_checks_codecollection.RepoFs.Walk.{
  Node, Event, found, blocked, check_tree_materialized, walk_files,
}

abbrev pub default_grep_max_matches : ℕ
default_grep_max_matches = 200

abbrev pub hard_grep_max_matches : ℕ
hard_grep_max_matches = 200

abbrev pub max_unreadable_paths : ℕ
max_unreadable_paths = 100

-- _UnreadablePaths
pub record Unreadable : Type 0 where
  pub paths : List Text
  pub truncated : Bool

abbrev pub no_unreadable : Unreadable
no_unreadable = record { paths = []; truncated = false }

unfoldable pub add : Text → Unreadable → Unreadable
add rel u =
    if ltb (length u.paths) max_unreadable_paths
    then record u { paths = u.paths ++ rel ∷ [] }
    else record u { truncated = true }

module _ (fnmatchcase : Text → Text → Bool) where
  -- all(fnmatch.fnmatchcase(np, pp) for pp, np in zip(...)) of two lists of one length
  abbrev pub match_segments : List Text → List Text → Bool
  match_segments [] [] = true
  match_segments (p ∷ ps) (n ∷ ns) = fnmatchcase n p && match_segments ps ns
  match_segments _ _ = false

  -- _path_match
  unfoldable pub path_match : Text → Text → Bool
  unfolding split_slash
  path_match pattern name = match_segments (split_slash pattern) (split_slash name)

abbrev last_segment : List Text → Text
last_segment [] = []
last_segment (p ∷ []) = p
last_segment (p ∷ q ∷ ps) = last_segment (q ∷ ps)

-- os.path.basename
unfoldable pub basename : Text → Text
unfolding split_slash
basename path = last_segment (split_slash path)

-- glob[3:] if glob.startswith("**/") else glob
abbrev pub strip_any_depth : Text → Text
strip_any_depth (c ∷ d ∷ e ∷ g) = if c == 42 && d == 42 && e == 47 then g else c ∷ d ∷ e ∷ g
strip_any_depth g = g

unfoldable pub match_glob : (Text → Text → Bool) → Text → Text → Bool
unfolding path_match basename
match_glob fnmatchcase glob rel =
    let g = strip_any_depth glob in
    if has_slash g then path_match fnmatchcase g rel else path_match fnmatchcase g (basename rel)

-- lines[a:b] for 0 <= a
abbrev pub slice {ℓ} : {A : Type ℓ} → List A → ℕ → ℕ → List A
slice lines a b = take (b - a) (drop a lines)

-- What is asked of a file: the compiled pattern, `context` and `exclude`.
pub record Ask : Type 0 where
  pub search : Text → Bool
  pub context : ℕ
  pub exclude : Option (Text → Bool)

abbrev pub excluded : Option (Text → Bool) → Text → Bool
excluded none line = false
excluded (some exclude) line = exclude line

-- A line that counts: `exclude` sees the whole of it.
abbrev pub is_hit : Ask → Text → Bool
is_hit ask line = ask.search line && not (excluded ask.exclude line)

-- `context` lines before and after the line of number `line_no`. Without context the slices are empty.
unfoldable pub match_of : Ask → Text → List Text → ℕ → Text → GrepMatch
unfolding clip_grep_line
match_of ask rel lines line_no line = record {
  path = rel;
  line = line_no;
  text = clip_grep_line line;
  before = map clip_grep_line (slice lines (line_no - 1 - ask.context) (line_no - 1));
  after = map clip_grep_line (slice lines line_no (line_no + ask.context));
}

-- The matches so far, and whether the limit was reached.
pub record Scan : Type 0 where
  pub matches : List GrepMatch
  pub full : Bool

-- The loop of _grep_file over the lines from number `line_no` on.
unfoldable pub scan_lines : Ask → ℕ → Text → List Text → ℕ → List Text → List GrepMatch → Scan
unfolding match_of
scan_lines ask limit rel lines line_no [] matches = record { matches = matches; full = false }
scan_lines ask limit rel lines line_no (line ∷ rest) matches =
    let hit = is_hit ask line in
    let grown = if hit then matches ++ match_of ask rel lines line_no line ∷ [] else matches in
    let later = scan_lines ask limit rel lines (suc line_no) rest grown in
    if hit && leb limit (length grown) then record { matches = grown; full = true } else later

abbrev pub file_lines : (List ℕ → Text) → List ℕ → List Text
file_lines decode bytes = map strip_cr (split_lines (decode bytes))

-- The state of grep_tree's loop.
pub record Grep : Type 0 where
  pub matches : List GrepMatch
  pub unreadable : Unreadable
  pub full : Bool

module _ (decode : List ℕ → Text) (ask : Ask) (limit : ℕ) where
  abbrev with_scan : Grep → Scan → Grep
  with_scan s r = record s { matches = r.matches; full = r.full }

  -- _grep_file: `full` is what it returns.
  unfoldable pub grep_file : Text → Option (List ℕ) → Grep → Grep
  unfolding is_binary split_lines scan_lines add
  grep_file rel none s = record s { unreadable = add rel s.unreadable; full = false }
  grep_file rel (some bytes) s =
      let lines = file_lines decode bytes in
      if is_binary bytes
      then record s { full = false }
      else with_scan s (scan_lines ask limit rel lines 1 lines s.matches)

  -- The loop of grep_tree, which takes the next event of the walk as long as it does not break.
  unfoldable pub grep_events : (Text → Bool) → List Event → Grep → Grep
  unfolding grep_file add
  grep_events kept [] s = s
  grep_events kept (blocked rel ∷ events) s =
      grep_events kept events (record s { unreadable = add rel s.unreadable })
  grep_events kept (found rel bytes ∷ events) s =
      let now = if kept rel then grep_file rel bytes s else s in
      let later = grep_events kept events now in
      if kept rel && (now.full || leb limit (length now.matches)) then now else later

-- The arguments of grep_tree after `tree` and `pattern`.
pub record GrepArgs : Type 0 where
  pub glob : Option Text
  pub globs : Option (List Text)
  pub max_matches : Option ℕ
  pub ignore_case : Bool
  pub context : ℕ
  pub exclude : Option (Text → Bool)

abbrev pub limit_or_default : Option ℕ → ℕ
limit_or_default none = default_grep_max_matches
limit_or_default (some zero) = default_grep_max_matches
limit_or_default (some (suc n)) = suc n

abbrev pub grep_limit : Option ℕ → ℕ
grep_limit max_matches = min (limit_or_default max_matches) hard_grep_max_matches

abbrev given_globs : Option (List Text) → List Text
given_globs none = []
given_globs (some globs) = globs

abbrev given_glob : Option Text → List Text
given_glob none = []
given_glob (some []) = []
given_glob (some (c ∷ glob)) = (c ∷ glob) ∷ []

abbrev pub all_globs : GrepArgs → List Text
all_globs args = given_globs args.globs ++ given_glob args.glob

abbrev pub kept_by : (Text → Text → Bool) → List Text → Text → Bool
kept_by fnmatchcase [] rel = true
kept_by fnmatchcase (g ∷ gs) rel = any (λ glob. match_glob fnmatchcase glob rel) (g ∷ gs)

abbrev pub grep_start : Grep
grep_start = record { matches = []; unreadable = no_unreadable; full = false }

abbrev pub grep_answer : ℕ → Grep → GrepResult
grep_answer limit s = record {
  matches = s.matches;
  truncated = leb limit (length s.matches);
  unreadable = s.unreadable.paths;
  unreadable_truncated = s.unreadable.truncated;
}

-- What grep_tree uses of `re`, `fnmatch` and decoding.
pub record Texts : Type 0 where
  pub compile : Bool → Text → Compiled
  pub fnmatchcase : Text → Text → Bool
  pub decode : List ℕ → Text

abbrev pub ask_of : (Text → Bool) → GrepArgs → Ask
ask_of search args = record { search = search; context = args.context; exclude = args.exclude }

module _ (texts : Texts) where
  abbrev pub grep_walk : Node → (Text → Bool) → GrepArgs → Result GrepResult
  grep_walk tree search args =
      let limit = grep_limit args.max_matches in
      walk_files tree >>= λ events. ok (
        grep_answer limit (
          grep_events texts.decode (ask_of search args) limit
            (kept_by texts.fnmatchcase (all_globs args)) events grep_start))

  -- os.walk finds nothing where nothing is; check_tree_materialized has refused that before.
  abbrev pub grep_there : Option Node → (Text → Bool) → GrepArgs → Result GrepResult
  grep_there none search args = ok (grep_answer (grep_limit args.max_matches) grep_start)
  grep_there (some tree) search args = grep_walk tree search args

  unfoldable pub grep_tree : Option Node → Text → GrepArgs → Result GrepResult
  unfolding check_tree_materialized walk_files grep_events match_glob
  grep_tree tree pattern args = check_tree_materialized tree >>= λ _.
      elim (texts.compile args.ignore_case pattern) [
        | bad_pattern exc ↦ raise (fault invalid_pattern (codes "invalid pattern: " ++ exc))
        | search_of search ↦ grep_there tree search args
      ]
