-- ===== src/RepoFs/Walk.antt =====
-- A checkout as a tree of nodes, and the walks of sdk/runwhen_capability/repo_fs.py over it:
-- check_tree_materialized and _walk_files, whose directories are scanned by os.walk.
use rw_checks_codecollection.Prelude.{
  ℕ, Bool, false, not, ◌||◌, List, [], ◌∷◌, ◌++◌, Option, none, some, if◌then◌else◌, Text, codes,
  text_eq, Named, sort_names,
}
use rw_checks_codecollection.Faults.{tree_not_materialized, os_error, Result, ok, raise}
use rw_checks_codecollection.Paths.{normalize_path}
use rw_checks_codecollection.RepoFs.Read.{fault}

-- What stands at a path: a file, with its bytes and its size where the system gives them, a symbolic
-- link, a directory, or a directory that cannot be listed, with the text of the OSError.
mutual
  pub data Node : Type 0 where
    plain : Option (List ℕ) → Option ℕ → Node
    link : Node
    folder : Entries → Node
    sealed : Text → Node

  pub data Entries : Type 0 where
    end : Entries
    entry : Text → Node → Entries → Entries

abbrev pub git_dir : Text
git_dir = codes ".git"

-- any(entry.name != ".git" for entry in tree.iterdir())
unfoldable pub has_content : Entries → Bool
unfolding text_eq
has_content end = false
has_content (entry name node es) = not (text_eq name git_dir) || has_content es

abbrev unmaterialized {ℓ} : {A : Type ℓ} → Text → Result A
unmaterialized why = raise (fault tree_not_materialized (codes "tree not materialized: " ++ why))

-- check_tree_materialized of what the tree's path leads to. A link there leads nowhere. The messages leave out the
-- path of the tree.
unfoldable pub check_tree_materialized : Option Node → Result (Unit {0})
unfolding has_content
check_tree_materialized (some (folder es)) =
    if has_content es then ok tt else unmaterialized (codes "no checked-out content")
check_tree_materialized (some (sealed why)) = raise (fault os_error why)
check_tree_materialized (some (plain bytes size)) = unmaterialized (codes "not a directory")
check_tree_materialized (some link) = unmaterialized (codes "does not exist")
check_tree_materialized none = unmaterialized (codes "does not exist")

-- f"{prefix}/{name}" if prefix else name
abbrev pub child_path : Text → Text → Text
child_path [] name = name
child_path (c ∷ prefix) name = (c ∷ prefix) ++ 47 ∷ name

-- What _walk_files comes to: a file that it yields, with what reading it gives, or a directory that it
-- records as unreadable.
pub data Event : Type 0 where
  found : Text → Option (List ℕ) → Event
  blocked : Text → Event

-- os.walk lists the entries of a directory as files or as directories.
pub data Visit : Type 0 where
  of_file : List Event → Visit
  of_dir : List Event → Visit

abbrev pub file_visits : List (Named Visit) → List (Named (List Event))
file_visits [] = []
file_visits ((name, of_file es) ∷ vs) = (name, es) ∷ file_visits vs
file_visits ((name, of_dir es) ∷ vs) = file_visits vs

abbrev pub dir_visits : List (Named Visit) → List (Named (List Event))
dir_visits [] = []
dir_visits ((name, of_file es) ∷ vs) = dir_visits vs
dir_visits ((name, of_dir es) ∷ vs) = (name, es) ∷ dir_visits vs

abbrev pub joined {ℓ} : {A : Type ℓ} → List (Named (List A)) → List A
joined [] = []
joined ((name, es) ∷ vs) = es ++ joined vs

-- A directory's files come first, then its directories, each in the order of the names.
abbrev pub in_order : List (Named Visit) → List Event
in_order vs = joined (sort_names (file_visits vs)) ++ joined (sort_names (dir_visits vs))

-- The skips of the loop: a link, and what is called .git at the root.
abbrev pub unless_git : Text → List Event → List Event
unless_git rel es = if text_eq rel git_dir then [] else es

unfoldable mutual
  unfolding sort_names text_eq normalize_path

  pub visit : Text → Node → Visit
  visit path (plain bytes size) =
      of_file (unless_git (normalize_path path) (found (normalize_path path) bytes ∷ []))
  visit path link = of_file []
  visit path (folder es) = of_dir (unless_git (normalize_path path) (in_order (visits path es)))
  visit path (sealed why) =
      of_dir (unless_git (normalize_path path) (blocked (normalize_path path) ∷ []))

  pub visits : Text → Entries → List (Named Visit)
  visits path end = []
  visits path (entry name node es) = (name, visit (child_path path name) node) ∷ visits path es

-- _walk_files: an error of listing the tree itself is the caller's.
unfoldable pub walk_files : Node → Result (List Event)
unfolding visit
walk_files (folder es) = ok (in_order (visits [] es))
walk_files (sealed why) = raise (fault os_error why)
walk_files (plain bytes size) = ok []
walk_files link = ok []
