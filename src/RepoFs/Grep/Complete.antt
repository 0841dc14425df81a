-- ===== src/RepoFs/Grep/Complete.antt =====
-- grep_tree of sdk/runwhen_capability/repo_fs.py as a whole: what it returns, and that it overlooks no
-- file that can be reached.
use rw_checks_codecollection.Prelude.{
  ℕ, zero, suc, ◌+◌, ◌≤◌, ◌≡◌, refl, sym, ap, ◌∙◌, inl, inr, Bool, true, false, List, [], ◌∷◌,
  Option, none, some, leb, Text, length, take, get_elem?, length-take, take_all, text_eq, Named, In,
  here, there, In-append_left, In-append_right, In-sort_names, Bool-cases, not_leb→lt, arith,
}
use rw_checks_codecollection.Faults.{ok, >>=-ok, ok-injective}
use rw_checks_codecollection.Models.{GrepMatch, GrepResult}
use rw_checks_codecollection.Paths.{normalize_path}
use rw_checks_codecollection.RepoFs.Read.{search_of, is_binary}
use rw_checks_codecollection.RepoFs.Reach.{Has, first, later, In-joined}
use rw_checks_codecollection.RepoFs.Walk.{
  Node, plain, folder, Entries, Event, found, blocked, Visit, of_file, of_dir, file_visits,
  dir_visits, in_order, visit, visits, child_path, git_dir, check_tree_materialized,
}
use rw_checks_codecollection.RepoFs.Grep.{
  max_unreadable_paths, Ask, is_hit, match_of, file_lines, grep_events, GrepArgs, grep_limit,
  all_globs, kept_by, grep_start, grep_answer, Texts, ask_of, grep_tree,
}
use rw_checks_codecollection.RepoFs.Grep.Laws.{
  line_matches, file_matches, all_matches, grep_events-take, grep_events-IsCapped,
}

-- A file below a directory at `path`, reached through directories that can be listed and without the
-- .git of the root: its path and what reading it gives.
pub data Inside : Text → Entries → Text → Option (List ℕ) → Type 0 where
  at_once :
      {path name : Text} {es : Entries} {bytes : Option (List ℕ)} {size : Option ℕ}
      → Has name (plain bytes size) es
      → text_eq (normalize_path (child_path path name)) git_dir ≡ false
      → Inside path es (child_path path name) bytes
  deeper :
      {path name target : Text} {es fs : Entries} {bytes : Option (List ℕ)}
      → Has name (folder fs) es
      → text_eq (normalize_path (child_path path name)) git_dir ≡ false
      → Inside (child_path path name) fs target bytes
      → Inside path es target bytes

In-visits :
    (path : Text) {name : Text} {node : Node} {es : Entries}
    → Has name node es
    → In (name, visit (child_path path name) node) (visits path es)
unfolding visit
In-visits path first = here
In-visits path (later h) = there (In-visits path h)

In-file_visits :
    {name : Text} {es : List Event} (vs : List (Named Visit))
    → In (name, of_file es) vs
    → In (name, es) (file_visits vs)
In-file_visits [] h = elim h [ ]
In-file_visits (_ ∷ vs) here = here
In-file_visits ((other, of_file fs) ∷ vs) (there h) = there (In-file_visits vs h)
In-file_visits ((other, of_dir fs) ∷ vs) (there h) = In-file_visits vs h

In-dir_visits :
    {name : Text} {es : List Event} (vs : List (Named Visit))
    → In (name, of_dir es) vs
    → In (name, es) (dir_visits vs)
In-dir_visits [] h = elim h [ ]
In-dir_visits (_ ∷ vs) here = here
In-dir_visits ((other, of_dir fs) ∷ vs) (there h) = there (In-dir_visits vs h)
In-dir_visits ((other, of_file fs) ∷ vs) (there h) = In-dir_visits vs h

visit-plain :
    (path : Text) (bytes : Option (List ℕ)) (size : Option ℕ)
    → text_eq (normalize_path path) git_dir ≡ false
    → visit path (plain bytes size) ≡ of_file (found (normalize_path path) bytes ∷ [])
unfolding visit
visit-plain path bytes size h = rw h refl

visit-folder :
    (path : Text) (es : Entries)
    → text_eq (normalize_path path) git_dir ≡ false
    → visit path (folder es) ≡ of_dir (in_order (visits path es))
unfolding visit
visit-folder path es h = rw h refl

-- The walk comes to every file that can be reached.
pub In-in_order :
    {path target : Text} {es : Entries} {bytes : Option (List ℕ)}
    → Inside path es target bytes
    → In (found (normalize_path target) bytes) (in_order (visits path es))
In-in_order (at_once {path = path} {name = name} {bytes = bytes} {size = size} h kept) =
    let mine = rw (visit-plain (child_path path name) bytes size kept) at (In-visits path h) in
    In-append_left _ _ (In-joined name _ (In-sort_names _ (In-file_visits _ mine)) here)
In-in_order (deeper {path = path} {name = name} {fs = fs} h kept i) =
    let mine = rw (visit-folder (child_path path name) fs kept) at (In-visits path h) in
    In-append_right _ _ (In-joined name _ (In-sort_names _ (In-dir_visits _ mine)) (In-in_order i))

In-line_matches :
    (ask : Ask) (rel : Text) (lines : List Text) (line_no : ℕ) (rest : List Text) (i n : ℕ)
    (line : Text)
    → get_elem? rest i ≡ some line
    → line_no + i ≡ n
    → is_hit ask line ≡ true
    → In (match_of ask rel lines n line) (line_matches ask rel lines line_no rest)
unfolding line_matches
In-line_matches ask rel lines line_no [] i n line h e hit = absurd (cc)
In-line_matches ask rel lines line_no (l ∷ rest) zero n line h e hit =
    let same_no : n ≡ line_no = omega arith in
    let same : line ≡ l = cc in rw (same_no, same, (rw same at hit)) here
In-line_matches ask rel lines line_no (l ∷ rest) (suc i) n line h e hit =
    let more = In-line_matches ask rel lines (suc line_no) rest i n line h (omega arith) hit in
    elim (Bool-cases (is_hit ask l)) [
      | inl taken ↦ rw taken (there more)
      | inr missed ↦ rw missed more
    ]

In-all_matches :
    (decode : List ℕ → Text) (ask : Ask) (kept : Text → Bool) {m : GrepMatch} {rel : Text}
    {bytes : Option (List ℕ)} (events : List Event)
    → In (found rel bytes) events
    → kept rel ≡ true
    → In m (file_matches decode ask rel bytes)
    → In m (all_matches decode ask kept events)
unfolding all_matches
In-all_matches decode ask kept [] h k m = elim h [ ]
In-all_matches decode ask kept (_ ∷ events) here k m = rw k (In-append_left _ _ m)
In-all_matches decode ask kept (blocked rel ∷ events) (there h) k m =
    In-all_matches decode ask kept events h k m
In-all_matches decode ask kept (found rel bytes ∷ events) (there h) k m =
    let more = In-all_matches decode ask kept events h k m in
    elim (Bool-cases (kept rel)) [
      | inl taken ↦ rw taken (In-append_right _ _ more)
      | inr skipped ↦ rw skipped more
    ]

grep_limit-pos : (max_matches : Option ℕ) → 1 ≤ grep_limit max_matches
grep_limit-pos none = omega arith
grep_limit-pos (some zero) = omega arith
grep_limit-pos (some (suc n)) = omega arith

is_full-take : (n : ℕ) (ms : List GrepMatch) → leb n (length (take n ms)) ≡ leb n (length ms)
is_full-take n ms = rw (length-take n ms) (ground arith)

module _ (texts : Texts) (es : Entries) (pattern : Text) (args : GrepArgs) (search : Text → Bool)
    (materialized : check_tree_materialized (some (folder es)) ≡ ok tt)
    (compiles : texts.compile args.ignore_case pattern ≡ search_of search) where
  abbrev ask : Ask
  ask = ask_of search args

  abbrev kept : Text → Bool
  kept = kept_by texts.fnmatchcase (all_globs args)

  abbrev limit : ℕ
  limit = grep_limit args.max_matches

  -- All matches in the tree.
  abbrev whole : List GrepMatch
  whole = all_matches texts.decode ask kept (in_order (visits [] es))

  abbrev end_state : GrepResult
  end_state =
      grep_answer limit
        (grep_events texts.decode ask limit kept (in_order (visits [] es)) grep_start)

  -- grep of a materialized tree by a pattern that compiles returns the first matches of the tree up to
  -- the limit, and `truncated` tells that there are at least as many; at most 100 unreadable paths are
  -- named.
  pub grep_tree-take :
      (r : GrepResult) × (grep_tree texts (some (folder es)) pattern args ≡ ok r)
      × (r.matches ≡ take limit whole)
      × (r.truncated ≡ leb limit (length whole))
      × (length r.unreadable ≤ max_unreadable_paths)
  unfolding grep_tree
  grep_tree-take =
      let matches =
        grep_events-take limit texts.decode ask kept (in_order (visits [] es)) grep_start
          (omega (arith, grep_limit-pos args.max_matches)) in
      (
        end_state,
        >>=-ok materialized _ ∙ rw compiles refl,
        matches,
        rw matches (is_full-take limit whole),
        grep_events-IsCapped limit texts.decode ask kept (in_order (visits [] es)) grep_start
            (omega arith),
      )

  -- If it is not truncated, no matching line of a readable text file of the tree is overlooked.
  pub grep_tree_complete :
      (r : GrepResult) (target : Text) (bytes : List ℕ) (i : ℕ) (line : Text)
      → grep_tree texts (some (folder es)) pattern args ≡ ok r
      → r.truncated ≡ false
      → Inside [] es target (some bytes)
      → kept (normalize_path target) ≡ true
      → is_binary bytes ≡ false
      → get_elem? (file_lines texts.decode bytes) i ≡ some line
      → is_hit ask line ≡ true
      → In
          (match_of ask (normalize_path target) (file_lines texts.decode bytes) (suc i) line)
          r.matches
  unfolding file_matches
  grep_tree_complete r target bytes i line returned all_there inside wanted text at_line hit =
      let (r', runs, matches, cap, few) = grep_tree-take in
      let same : r' ≡ r = ok-injective (sym runs ∙ returned) in
      let short : leb limit (length whole) ≡ false =
        sym cap ∙ ap (λ (x : GrepResult). x.truncated) same ∙ all_there in
      let found_all : r.matches ≡ whole =
        sym (ap (λ (x : GrepResult). x.matches) same)
        ∙ matches
        ∙ take_all limit whole (omega (arith, not_leb→lt _ _ short)) in
      rw found_all (
        In-all_matches texts.decode ask kept (in_order (visits [] es)) (In-in_order inside) wanted (
          rw text (
            In-line_matches ask (normalize_path target) _ 1 _ i (suc i) line at_line (omega arith)
              hit)))
