-- ===== src/RepoFs/Ls/Laws.antt =====
-- What ls_tree of sdk/runwhen_capability/repo_fs.py lists, against a listing without state.
use rw_checks_codecollection.Prelude.{
  ℕ, zero, suc, ◌≤◌, ◌<◌, ◌≡◌, refl, sym, ap, ◌∙◌, inl, inr, false, List, [], ◌∷◌, ◌++◌, Option,
  some, leb, Text, length, take, length-append, length-take, take_all, take-append_take,
  take-append_full, append-nil, append_assoc, text_eq, Named, sort_names, Matched, both,
  sort_names-Matched, Bool-cases, not_leb→lt, In, here, there, In-sort_names, arith,
}
use rw_checks_codecollection.Prelude.Names
use rw_checks_codecollection.Faults.{ok, >>=-ok, ok-injective}
use rw_checks_codecollection.Models.{LsEntry, LsResult}
use rw_checks_codecollection.Paths.{normalize_path}
use rw_checks_codecollection.RepoFs.Grep.{max_unreadable_paths}
use rw_checks_codecollection.RepoFs.Reach.{IsCapped, add-IsCapped, Has, first, later, In-joined}
use rw_checks_codecollection.RepoFs.Walk.{
  Node, plain, link, folder, sealed, Entries, end, entry, git_dir, child_path, joined,
  check_tree_materialized,
}
use rw_checks_codecollection.RepoFs.Ls.{
  max_ls_entries, Listing, is_full, entry_of, append, block, run, fewer, below, round, unless_git,
  ls_inside, rounds, Places, levels_below, ls_tree, confined_root, start, text_or_empty, ls_answer,
}

abbrev under : ℕ → List LsEntry → List LsEntry
under zero es = []
under (suc levels) es = es

-- All entries below a directory, `levels` levels deep below the first: each entry of the directory, in
-- the order of the names, followed by those below it.
unfoldable mutual
  unfolding sort_names text_eq

  pub listed : Text → ℕ → Node → List LsEntry
  listed path levels (folder es) = joined (sort_names (listed_each path levels es))
  listed path levels (sealed why) = []
  listed path levels (plain bytes size) = []
  listed path levels link = []

  pub listed_each : Text → ℕ → Entries → List (Named (List LsEntry))
  listed_each path levels end = []
  listed_each path levels (entry name node es) =
      (
        name,
        unless_git (child_path path name) [] (
            entry_of (child_path path name) node
            ∷ under levels (listed (child_path path name) (fewer levels) node)),
      )
      ∷ listed_each path levels es

abbrev cut : List LsEntry → List LsEntry
cut es = take max_ls_entries es

-- A part of the walk lists `es`, up to the cap, and keeps the cap of the unreadable paths.
record Lists (part : Listing → Listing) (es : List LsEntry) : Type 0 where
  given :
      (s : Listing) → length s.entries < max_ls_entries → (part s).entries ≡ cut (s.entries ++ es)
  capped : (s : Listing) → IsCapped s.unreadable → IsCapped (part s).unreadable

cut-bound : (es : List LsEntry) → length (cut es) ≤ max_ls_entries
cut-bound es = omega (arith, length-take max_ls_entries es)

-- One part after another.
cut-then :
    (now before es fs : List LsEntry)
    → now ≡ cut (before ++ es)
    → cut (now ++ fs) ≡ cut (before ++ (es ++ fs))
cut-then now before es fs h =
    ap (λ x. cut (x ++ fs)) h
    ∙ take-append_take max_ls_entries (before ++ es) fs
    ∙ ap cut (append_assoc before es fs)

cut-nil : (es : List LsEntry) → length es ≤ max_ls_entries → es ≡ cut (es ++ [])
cut-nil es h = rw (append-nil es) (sym (take_all max_ls_entries es h))

-- The cap is reached by the whole listing as it is by its first 500 entries.
is_full-cut :
    (es : List LsEntry) → leb max_ls_entries (length (cut es)) ≡ leb max_ls_entries (length es)
is_full-cut es = rw (length-take max_ls_entries es) (ground arith)

run-cut :
    {parts : List (Named (Listing → Listing))} {specs : List (Named (List LsEntry))}
    → Matched Lists parts specs
    → (s : Listing) → length s.entries ≤ max_ls_entries
    → (run parts s).entries ≡ cut (s.entries ++ joined specs)
unfolding run
run-cut Names.done s h = cut-nil s.entries h
run-cut (both {a = part} {b = es} {ys = specs} one more) s h = elim (Bool-cases (is_full s)) [
  | inl full ↦ rw full (sym (take-append_full max_ls_entries s.entries _ (ground arith)))
  | inr free ↦
      let now = one.given s (ground arith) in
      rw free (
        run-cut more (part s) (rw now (cut-bound _))
        ∙ cut-then (part s).entries s.entries es (joined specs) now)
]

run-IsCapped :
    {parts : List (Named (Listing → Listing))} {specs : List (Named (List LsEntry))}
    → Matched Lists parts specs
    → (s : Listing) → IsCapped s.unreadable
    → IsCapped (run parts s).unreadable
unfolding run
run-IsCapped Names.done s h = h
run-IsCapped (both {a = part} one more) s h = elim (Bool-cases (is_full s)) [
  | inl full ↦ rw full h
  | inr free ↦ rw free (run-IsCapped more (part s) (one.capped s h))
]

-- An entry that is appended below the cap.
append-cut :
    (e : LsEntry) (s : Listing)
    → length s.entries < max_ls_entries
    → (append e s).entries ≡ cut (s.entries ++ e ∷ [])
append-cut e s h = sym (
    take_all max_ls_entries (s.entries ++ e ∷ []) (omega (arith, length-append s.entries (e ∷ []))))

below-cut :
    (levels : ℕ) (inside : Listing → Listing) (es : List LsEntry) (s : Listing)
    → Lists inside es
    → length s.entries ≤ max_ls_entries
    → (below levels inside s).entries ≡ cut (s.entries ++ under levels es)
below-cut zero inside es s l h = cut-nil s.entries h
below-cut (suc levels) inside es s l h = elim (Bool-cases (is_full s)) [
  | inl full ↦ rw full (sym (take-append_full max_ls_entries s.entries es (ground arith)))
  | inr free ↦ rw free (l.given s (ground arith))
]

below-IsCapped :
    (levels : ℕ) (inside : Listing → Listing) (es : List LsEntry) (s : Listing)
    → Lists inside es
    → IsCapped s.unreadable
    → IsCapped (below levels inside s).unreadable
below-IsCapped zero inside es s l h = h
below-IsCapped (suc levels) inside es s l h = elim (Bool-cases (is_full s)) [
  | inl full ↦ rw full h
  | inr free ↦ rw free (l.capped s h)
]

round-Lists :
    (path : Text) (levels : ℕ) (node : Node) (inside : Listing → Listing) (es : List LsEntry)
    → Lists inside es
    → Lists
        (round path levels node inside)
        (unless_git path [] (entry_of path node ∷ under levels es))
unfolding round
round-Lists path levels node inside es l = record {
  given = λ s h. elim (Bool-cases (text_eq path git_dir)) [
    | inl git ↦ rw git (cut-nil s.entries (omega arith))
    | inr kept ↦
        let now = append-cut (entry_of path node) s h in
        rw kept (
          below-cut levels inside es (append (entry_of path node) s) l (rw now (cut-bound _))
          ∙ cut-then (append (entry_of path node) s).entries s.entries (entry_of path node ∷ [])
              (under levels es) now)
  ];
  capped = λ s h. elim (Bool-cases (text_eq path git_dir)) [
    | inl git ↦ rw git h
    | inr kept ↦ rw kept (below-IsCapped levels inside es (append (entry_of path node) s) l h)
  ];
}

nothing-Lists : Lists (λ s. s) []
nothing-Lists = record { given = λ s h. cut-nil s.entries (omega arith); capped = λ s h. h }

block-Lists : (path : Text) → Lists (block path) []
block-Lists path = record {
  given = λ s h. cut-nil s.entries (omega arith);
  capped = λ s h. add-IsCapped path s.unreadable h;
}

mutual
  unfolding ls_inside listed

  ls_inside-Lists :
      (path : Text) (levels : ℕ) (node : Node)
      → Lists (ls_inside path levels node) (listed path levels node)
  ls_inside-Lists path levels (folder es) = record {
    given = λ s h. run-cut (sort_names-Matched (rounds-Matched path levels es)) s (omega arith);
    capped = λ s h. run-IsCapped (sort_names-Matched (rounds-Matched path levels es)) s h;
  }
  ls_inside-Lists path levels (sealed why) = block-Lists path
  ls_inside-Lists path levels (plain bytes size) = nothing-Lists
  ls_inside-Lists path levels link = nothing-Lists

  rounds-Matched :
      (path : Text) (levels : ℕ) (es : Entries)
      → Matched Lists (rounds path levels es) (listed_each path levels es)
  rounds-Matched path levels end = Names.done
  rounds-Matched path levels (entry name node es) =
      both
        (round-Lists (child_path path name) levels node _ _
          (ls_inside-Lists (child_path path name) (fewer levels) node))
        (rounds-Matched path levels es)

-- What lies below a directory at `path`, at most `levels` levels deeper, reached through directories
-- that can be listed and without the .git of the root: its path and what it is.
pub data Below : ℕ → Text → Entries → Text → Node → Type 0 where
  at_once :
      {levels : ℕ} {path name : Text} {es : Entries} {node : Node}
      → Has name node es
      → text_eq (child_path path name) git_dir ≡ false
      → Below levels path es (child_path path name) node
  deeper :
      {levels : ℕ} {path name target : Text} {es fs : Entries} {node : Node}
      → Has name (folder fs) es
      → text_eq (child_path path name) git_dir ≡ false
      → Below levels (child_path path name) fs target node
      → Below (suc levels) path es target node

-- A name's part of the listing is among the parts.
In-listed_each :
    (path : Text) (levels : ℕ) {name : Text} {node : Node} {es : Entries}
    → Has name node es
    → text_eq (child_path path name) git_dir ≡ false
    → In
        (
          name,
          entry_of (child_path path name) node
              ∷ under levels (listed (child_path path name) (fewer levels) node),
        )
        (listed_each path levels es)
unfolding listed
In-listed_each path levels (first {es = es}) kept = rw kept here
In-listed_each path levels (later h) kept = there (In-listed_each path levels h kept)

In-listed :
    {levels : ℕ} {path target : Text} {es : Entries} {node : Node}
    → Below levels path es target node
    → In (entry_of target node) (listed path levels (folder es))
unfolding listed
In-listed (at_once {levels = levels} {path = path} {name = name} h kept) =
    In-joined name _ (In-sort_names _ (In-listed_each path levels h kept)) here
In-listed (deeper {levels = levels} {path = path} {name = name} h kept b) =
    In-joined name _ (In-sort_names _ (In-listed_each path (suc levels) h kept))
      (there (In-listed b))

module _ (places : Places) (tree : Option Node) (path : Option Text) (depth : Option ℕ)
    (full : Text) (es : Entries) (materialized : check_tree_materialized tree ≡ ok tt)
    (inside : places.safe_path (normalize_path (text_or_empty path)) ≡ ok (some full))
    (is_dir : places.node_at full ≡ some (folder es)) where
  abbrev whole : List LsEntry
  whole = listed [] (levels_below depth) (folder es)

  confined_to : confined_root places path ≡ ok full
  confined_to = rw (confined_root, inside) refl

  -- ls of a directory of a materialized tree returns the first 500 entries of the whole listing, and
  -- `truncated` tells that there are at least 500; at most 100 unreadable paths are named.
  pub ls_tree-listed :
      (r : LsResult) × (ls_tree places tree path depth ≡ ok r)
      × (r.entries ≡ take max_ls_entries whole)
      × (r.truncated ≡ leb max_ls_entries (length whole))
      × (length r.unreadable ≤ max_unreadable_paths)
  unfolding ls_tree
  ls_tree-listed =
      let lists = ls_inside-Lists [] (levels_below depth) (folder es) in
      let entries = lists.given start (omega arith) in
      (
        ls_answer (ls_inside [] (levels_below depth) (folder es) start),
        >>=-ok materialized _ ∙ >>=-ok confined_to _ ∙ rw is_dir refl,
        entries,
        rw entries (is_full-cut whole),
        lists.capped start (omega arith),
      )

  -- If it is not truncated, the listing names everything within the depth.
  pub ls_tree_complete :
      (r : LsResult) (target : Text) (node : Node)
      → ls_tree places tree path depth ≡ ok r
      → r.truncated ≡ false
      → Below (levels_below depth) [] es target node
      → In (entry_of target node) r.entries
  ls_tree_complete r target node returned all_there b =
      let (r', runs, entries, cap, few) = ls_tree-listed in
      let same : r' ≡ r = ok-injective (sym runs ∙ returned) in
      let short : leb max_ls_entries (length whole) ≡ false =
        sym cap ∙ ap (λ (x : LsResult). x.truncated) same ∙ all_there in
      let listing : r.entries ≡ whole =
        sym (ap (λ (x : LsResult). x.entries) same)
        ∙ entries
        ∙ take_all max_ls_entries whole (omega (arith, not_leb→lt _ _ short)) in
      rw listing (In-listed b)
