-- ===== src/Tests/Checkout.antt =====
-- Greps, listings and queries of sdk/runwhen_capability/repo_fs.py on a small checkout.
use rw_checks_codecollection.Prelude.{
  ℕ, ◌≡◌, ◌≤◌, refl, Bool, true, false, List, [], ◌∷◌, none, some, leb, ◌==◌, Text, codes, length,
  take, any, text_eq, text_leb, insert_name, sort_names, In,
}
use rw_checks_codecollection.Json.{Json, str, obj, field, end}
use rw_checks_codecollection.Faults.{ok}
use rw_checks_codecollection.Models.{GrepMatch, GrepResult, file, LsResult}
use rw_checks_codecollection.Paths.{normalize_path}
use rw_checks_codecollection.RepoFs.Read.{search_of, is_binary, split_lines}
use rw_checks_codecollection.RepoFs.Select.{clip_grep_line}
use rw_checks_codecollection.RepoFs.Reach.{first}
use rw_checks_codecollection.RepoFs.Walk
use rw_checks_codecollection.RepoFs.Walk.{
  Node, plain, link, folder, sealed, Entries, entry, has_content, check_tree_materialized,
  walk_files, visit, visits, in_order,
}
use rw_checks_codecollection.RepoFs.Grep.{
  GrepArgs, Texts, ask_of, add, match_of, scan_lines, grep_file, grep_events, file_lines, grep_tree,
}
use rw_checks_codecollection.RepoFs.Grep.Laws.{all_matches}
use rw_checks_codecollection.RepoFs.Grep.Complete
use rw_checks_codecollection.RepoFs.Grep.Complete.{Inside, grep_tree-take, grep_tree_complete}
use rw_checks_codecollection.RepoFs.Ls.{Places, run, round, ls_inside, entry_of, ls_tree}
use rw_checks_codecollection.RepoFs.Ls.Laws
use rw_checks_codecollection.RepoFs.Ls.Laws.{listed, ls_tree-listed, ls_tree_complete}
use rw_checks_codecollection.RepoFs.Checkout.{Checkout}

abbrev text_file : Text → Node
text_file text = plain (some text) (some (length text))

abbrev src_dir : Entries
src_dir =
    entry (codes "b.py") (text_file (codes "def f\nf()"))
      (entry (codes "a.py") (text_file (codes "pass")) Walk.end)

-- A checkout with its .git, a link, a file, a directory and one that cannot be listed.
abbrev tree_entries : Entries
tree_entries = entry (codes "src") (folder src_dir) (
    entry (codes ".git") (folder (entry (codes "f") (text_file (codes "f")) Walk.end)) (
      entry (codes "z") (sealed (codes "denied"))
        (entry (codes "ln") link (entry (codes "x") (text_file (codes "off")) Walk.end))))

abbrev has_f : Text → Bool
has_f line = any (λ c. c == 102) line

abbrev plain_texts : Texts
plain_texts = record {
  compile = λ ignore_case pattern. search_of has_f;
  fnmatchcase = text_eq;
  decode = λ bytes. bytes;
}

abbrev grep_args : GrepArgs
grep_args = record {
  glob = none;
  globs = none;
  max_matches = none;
  ignore_case = false;
  context = 1;
  exclude = none;
}

abbrev in_b : ℕ → Text → List Text → List Text → GrepMatch
in_b line text before after = record {
  path = codes "src/b.py";
  line = line;
  text = text;
  before = before;
  after = after;
}

abbrev grepped : GrepResult
grepped = record {
  matches =
      (record { path = codes "x"; line = 1; text = codes "off"; before = []; after = [] })
      ∷ in_b 1 (codes "def f") [] (codes "f()" ∷ [])
      ∷ in_b 2 (codes "f()") (codes "def f" ∷ []) []
      ∷ [];
  truncated = false;
  unreadable = codes "z" ∷ [];
  unreadable_truncated = false;
}

tree_entries-materialized : check_tree_materialized (some (folder tree_entries)) ≡ ok tt
unfolding check_tree_materialized has_content text_eq
tree_entries-materialized = refl

grep_tree_runs :
    grep_tree plain_texts (some (folder tree_entries)) (codes "f") grep_args ≡ ok grepped
unfolding grep_tree check_tree_materialized has_content text_eq text_leb walk_files visit
    insert_name sort_names normalize_path grep_events grep_file scan_lines match_of add is_binary
    split_lines clip_grep_line
grep_tree_runs = refl

grep_tree-take_example :
    (r : GrepResult) × (grep_tree plain_texts (some (folder tree_entries)) (codes "f") grep_args
      ≡ ok r)
    × (r.matches
        ≡ take 200 (
            all_matches
              (λ bytes. bytes)
              (ask_of has_f grep_args)
              (λ rel. true)
              (in_order (visits [] tree_entries))))
    × (r.truncated
        ≡ leb 200 (
            length (
              all_matches
                (λ bytes. bytes)
                (ask_of has_f grep_args)
                (λ rel. true)
                (in_order (visits [] tree_entries)))))
    × (length r.unreadable ≤ 100)
grep_tree-take_example =
    grep_tree-take plain_texts tree_entries (codes "f") grep_args has_f tree_entries-materialized
      refl

in_src : Inside [] tree_entries (codes "src/b.py") (some (codes "def f\nf()"))
unfolding normalize_path text_eq
in_src =
    Complete.deeper {name = codes "src"} first refl
      (Complete.at_once {name = codes "b.py"} first refl)

grep_tree_complete_example :
    In
      (match_of
        (ask_of has_f grep_args)
        (normalize_path (codes "src/b.py"))
        (file_lines (λ bytes. bytes) (codes "def f\nf()"))
        2
        (codes "f()"))
      grepped.matches
unfolding is_binary split_lines
grep_tree_complete_example =
    grep_tree_complete plain_texts tree_entries (codes "f") grep_args has_f
      tree_entries-materialized refl grepped (codes "src/b.py") (codes "def f\nf()") 1 (codes "f()")
      grep_tree_runs refl in_src refl refl refl refl

abbrev all_places : Places
all_places = record {
  safe_path = λ path. ok (some path);
  node_at = λ full. some (folder tree_entries);
  repr = λ path. [];
}

abbrev src_places : Places
src_places = record {
  safe_path = λ path. ok (some path);
  node_at = λ full. some (folder src_dir);
  repr = λ path. [];
}

abbrev src_listing : LsResult
src_listing = record {
  entries =
      (record { path = codes "a.py"; kind = file; size = 4 })
      ∷ (record { path = codes "b.py"; kind = file; size = 9 })
      ∷ [];
  truncated = false;
  unreadable = [];
  unreadable_truncated = false;
}

ls_tree-listed_example :
    (r : LsResult) × (ls_tree all_places (some (folder tree_entries)) none (some 2) ≡ ok r)
    × (r.entries ≡ take 500 (listed [] 1 (folder tree_entries)))
    × (r.truncated ≡ leb 500 (length (listed [] 1 (folder tree_entries))))
    × (length r.unreadable ≤ 100)
ls_tree-listed_example =
    ls_tree-listed all_places (some (folder tree_entries)) none (some 2) _ tree_entries
      tree_entries-materialized refl refl

ls_tree_runs :
    ls_tree src_places (some (folder tree_entries)) (some (codes "src")) none ≡ ok src_listing
unfolding ls_tree check_tree_materialized has_content text_eq text_leb insert_name sort_names
    normalize_path ls_inside run round
ls_tree_runs = refl

ls_tree_complete_example :
    In (entry_of (codes "b.py") (text_file (codes "def f\nf()"))) src_listing.entries
unfolding text_eq
ls_tree_complete_example =
    ls_tree_complete src_places (some (folder tree_entries)) (some (codes "src")) none _ src_dir
      tree_entries-materialized refl refl src_listing (codes "b.py")
      (text_file (codes "def f\nf()")) ls_tree_runs refl
      (Laws.at_once {name = codes "b.py"} first refl)

abbrev checkout : Checkout
checkout = record { root = some (folder tree_entries); texts = plain_texts; places = all_places }

abbrev two_ops : List Json
two_ops =
    obj (field "op" (str (codes "grep")) (field "pattern" (str (codes "f")) end))
    ∷ obj (field "op" (str (codes "read")) end)
    ∷ []
