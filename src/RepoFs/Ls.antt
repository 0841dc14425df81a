-- ===== src/RepoFs/Ls.antt =====
-- ls_tree of sdk/runwhen_capability/repo_fs.py.
pub mod Laws
use rw_checks_codecollection.Prelude.{
  ℕ, zero, suc, Bool, true, false, List, [], ◌∷◌, ◌++◌, Option, none, some, leb, if◌then◌else◌,
  Text, codes, length, text_eq, Named, sort_names,
}
use rw_checks_codecollection.Faults.{not_a_directory, os_error, Result, ok, raise, ◌>>=◌}
use rw_checks_codecollection.Models.{LsEntry, file, dir, other, LsResult}
use rw_checks_codecollection.Paths.{normalize_path}
use rw_checks_codecollection.RepoFs.Read.{fault, or_escapes}
use rw_checks_codecollection.RepoFs.Grep.{Unreadable, no_unreadable, add}
use rw_checks_codecollection.RepoFs.Walk.{
  Node, plain, link, folder, sealed, Entries, end, entry, git_dir, child_path,
  check_tree_materialized,
}

abbrev pub max_ls_entries : ℕ
max_ls_entries = 500

-- The lists that _ls_walk appends to.
pub record Listing : Type 0 where
  pub entries : List LsEntry
  pub unreadable : Unreadable

abbrev pub is_full : Listing → Bool
is_full s = leb max_ls_entries (length s.entries)

abbrev size_or_zero : Option ℕ → ℕ
size_or_zero none = 0
size_or_zero (some n) = n

abbrev pub entry_of : Text → Node → LsEntry
entry_of path (plain bytes size) = record { path = path; kind = file; size = size_or_zero size }
entry_of path link = record { path = path; kind = other; size = 0 }
entry_of path (folder es) = record { path = path; kind = dir; size = 0 }
entry_of path (sealed why) = record { path = path; kind = dir; size = 0 }

abbrev pub append : LsEntry → Listing → Listing
append e s = record s { entries = s.entries ++ e ∷ [] }

abbrev pub block : Text → Listing → Listing
block path s = record s { unreadable = add path s.unreadable }

-- The loop of _ls_walk over the sorted names, each with its round. It returns once the list is full.
unfoldable pub run : List (Named (Listing → Listing)) → Listing → Listing
run [] s = s
run ((name, round) ∷ rounds) s = if is_full s then s else run rounds (round s)

-- The recursive call of a round, unless the list is full.
abbrev pub unless_full : (Listing → Listing) → Listing → Listing
unless_full inside s = if is_full s then s else inside s

abbrev pub unless_git : {A : Type 0} → Text → A → A → A
unless_git path skipped a = if text_eq path git_dir then skipped else a

abbrev pub fewer : ℕ → ℕ
fewer zero = zero
fewer (suc levels) = levels

abbrev pub below : ℕ → (Listing → Listing) → Listing → Listing
below zero inside s = s
below (suc levels) inside s = unless_full inside s

-- The round of a name with `levels` levels left below it; `inside` is the recursive call.
unfoldable pub round : Text → ℕ → Node → (Listing → Listing) → Listing → Listing
unfolding text_eq
round path levels node inside s =
    unless_git path s (below levels inside (append (entry_of path node) s))

unfoldable mutual
  unfolding sort_names run add round

  -- _ls_walk within the directory `path`, with `levels` levels left below its entries.
  pub ls_inside : Text → ℕ → Node → Listing → Listing
  ls_inside path levels (folder es) s = run (sort_names (rounds path levels es)) s
  ls_inside path levels (sealed why) s = block path s
  ls_inside path levels (plain bytes size) s = s
  ls_inside path levels link s = s

  pub rounds : Text → ℕ → Entries → List (Named (Listing → Listing))
  rounds path levels end = []
  rounds path levels (entry name node es) =
      (
        name,
        round (child_path path name) levels node
            (ls_inside (child_path path name) (fewer levels) node),
      )
      ∷ rounds path levels es

-- What ls_tree uses of the file system: a path that is confined to the tree, and what stands there.
pub record Places : Type 0 where
  pub safe_path : Text → Result (Option Text)
  pub node_at : Text → Option Node
  pub repr : Option Text → Text

abbrev pub text_or_empty : Option Text → Text
text_or_empty none = []
text_or_empty (some path) = path

abbrev pub start : Listing
start = record { entries = []; unreadable = no_unreadable }

abbrev pub ls_answer : Listing → LsResult
ls_answer s = record {
  entries = s.entries;
  truncated = is_full s;
  unreadable = s.unreadable.paths;
  unreadable_truncated = s.unreadable.truncated;
}

-- The levels below the first: `depth if depth and depth > 0 else DEFAULT_LS_DEPTH`, less one.
abbrev pub levels_below : Option ℕ → ℕ
levels_below none = 0
levels_below (some zero) = 0
levels_below (some (suc n)) = n

module _ (places : Places) where
  abbrev not_dir : Option Text → Result LsResult
  not_dir path = raise (fault not_a_directory (codes "not a directory: " ++ places.repr path))

  -- The directory that was asked for: an error of listing it is the caller's.
  abbrev pub ls_root : Option Text → ℕ → Option Node → Result LsResult
  ls_root path levels (some (folder es)) = ok (ls_answer (ls_inside [] levels (folder es) start))
  ls_root path levels (some (sealed why)) = raise (fault os_error why)
  ls_root path levels (some (plain bytes size)) = not_dir path
  ls_root path levels (some link) = not_dir path
  ls_root path levels none = not_dir path

  abbrev pub confined_root : Option Text → Result Text
  confined_root path = places.safe_path (normalize_path (text_or_empty path)) >>= λ resolved.
      or_escapes (codes "path escapes tree: " ++ places.repr (some (text_or_empty path))) resolved

  unfoldable pub ls_tree : Option Node → Option Text → Option ℕ → Result LsResult
  unfolding check_tree_materialized ls_inside
  ls_tree tree path depth = check_tree_materialized tree >>= λ _.
      confined_root path >>= λ full. ls_root path (levels_below depth) (places.node_at full)
