-- ===== src/Checks/Plan.antt =====
-- capabilities/rw-checks/tools/_plan.py: the files that a check applies to, grouped by their config, and
-- the lanes that make invocations of the groups. fnmatch and the file system are parameters.
pub mod Steps
pub mod Scope
pub mod Honest
use rw_checks_codecollection.Prelude.{
  ℕ, zero, suc, ◌+◌, Bool, true, false, not, ◌&&◌, ◌||◌, List, [], ◌∷◌, ◌++◌, Option, none, some,
  ltb, ◌==◌, if◌then◌else◌, Text, codes, length, show_ℕ, map, any, all, text_eq, text_leb, mem,
}
use rw_checks_codecollection.Paths.{split_slash, no_part, has_slash}
use rw_checks_codecollection.Findings.{Finding, keep_if}
use rw_checks_codecollection.Checks.Runner.{Invocation, Applicability}

-- Resolved: a config and the directory that it was found from.
pub record Resolved : Type 0 where
  pub path : Text
  pub base : Text

pub data Lane : Type 0 where
  lane_a lane_b lane_c lane_d : Lane

abbrev pub Group : Type 0
Group = Option Resolved × List Text

-- PurePosixPath(path).parts of a relative path
abbrev pub parts_of : Text → List Text
parts_of path = keep_if (λ p. not (no_part p)) (split_slash path)

abbrev pub last_of : List Text → Text
last_of [] = []
last_of (p ∷ []) = p
last_of (p ∷ q ∷ ps) = last_of (q ∷ ps)

module _ (fnmatch : Text → Text → Bool) where
  -- `len(...) == len(...) and all(fnmatchcase(p, q) for p, q in zip(...))`
  abbrev pub match_parts : List Text → List Text → Bool
  match_parts [] [] = true
  match_parts (p ∷ ps) (q ∷ qs) = fnmatch p q && match_parts ps qs
  match_parts _ _ = false

  abbrev pub match_one : List Text → Text → Bool
  match_one parts pattern =
      if has_slash pattern
      then match_parts parts (parts_of pattern)
      else fnmatch (last_of parts) pattern

  -- matches
  unfoldable pub matches : Text → List Text → Bool
  unfolding split_slash
  matches rel [] = true
  matches rel (pattern ∷ patterns) = any (match_one (parts_of rel)) (pattern ∷ patterns)

-- sorted() of a set: each text once, in order
unfoldable pub insert_text : Text → List Text → List Text
unfolding text_leb text_eq
insert_text t [] = t ∷ []
insert_text t (u ∷ us) =
    let rest = insert_text t us in
    if text_eq t u then u ∷ us else if text_leb t u then t ∷ u ∷ us else u ∷ rest

-- sorted() of a list, which keeps what stands twice
unfoldable pub insert_any : Text → List Text → List Text
unfolding text_leb
insert_any t [] = t ∷ []
insert_any t (u ∷ us) = let rest = insert_any t us in if text_leb t u then t ∷ u ∷ us else u ∷ rest

abbrev pub sorted : List Text → List Text
sorted [] = []
sorted (t ∷ ts) = insert_any t (sorted ts)

-- The files that exist and resolve inside the tree, `is_inside`, are looked at once they match.
unfoldable pub eligible_files :
    (Text → Text → Bool) → (Text → Bool) → List Text → List Text → List Text
unfolding matches insert_text
eligible_files fnmatch is_inside [] patterns = []
eligible_files fnmatch is_inside (rel ∷ changed) patterns =
    let rest = eligible_files fnmatch is_inside changed patterns in
    if matches fnmatch rel patterns && is_inside rel then insert_text rel rest else rest

abbrev pub resolved_eq : Option Resolved → Option Resolved → Bool
resolved_eq none none = true
resolved_eq (some a) (some b) = text_eq a.path b.path && text_eq a.base b.base
resolved_eq _ _ = false

-- groups.setdefault(resolved, []).append(rel)
unfoldable pub add_to : Option Resolved → Text → List Group → List Group
unfolding text_eq
add_to key rel [] = (key, rel ∷ []) ∷ []
add_to key rel ((k, files) ∷ groups) =
    let rest = add_to key rel groups in
    if resolved_eq key k then (k, files ++ rel ∷ []) ∷ groups else (k, files) ∷ rest

abbrev pub is_required : Bool → Option Resolved → Bool
is_required required none = required
is_required required (some r) = false

-- The variables of the loop that groups the files by their config.
pub record Grouped : Type 0 where
  pub groups : List Group
  pub unconfigured : ℕ

-- One file, by whether it lacks a config that it needs.
abbrev pub file_step : Bool → Option Resolved → Text → Grouped → Grouped
file_step true key rel g = record g { unconfigured = suc g.unconfigured }
file_step false key rel g = record g { groups = add_to key rel g.groups }

-- The loop, in the order of the files. `config_of` is nearest_config, or None if the module names none.
unfoldable pub group_files : (Text → Option Resolved) → Bool → List Text → Grouped → Grouped
unfolding add_to
group_files config_of required [] g = g
group_files config_of required (rel ∷ files) g =
    group_files config_of required files
      (file_step (is_required required (config_of rel)) (config_of rel) rel g)

abbrev pub path_key : Option Resolved → Text
path_key none = []
path_key (some r) = r.path

-- sorted(groups.items(), key=...), which is stable
unfoldable pub insert_group : Group → List Group → List Group
unfolding text_leb
insert_group g [] = g ∷ []
insert_group g (h ∷ hs) =
    let rest = insert_group g hs in
    if text_leb (path_key g.0) (path_key h.0) then g ∷ h ∷ hs else h ∷ rest

abbrev pub sort_groups : List Group → List Group
sort_groups [] = []
sort_groups (g ∷ gs) = insert_group g (sort_groups gs)

abbrev pub files_of : List Group → List Text
files_of [] = []
files_of ((k, files) ∷ groups) = files ++ files_of groups

-- `next(iter(configs)) if len(configs) == 1 and None not in groups else None`
abbrev pub single_config : List Group → Option Text
single_config ((some r, files) ∷ groups) =
    if all (λ (g : Group). shares r g.0) groups then some r.path else none
  where
    shares : Resolved → Option Resolved → Bool
    shares r none = false
    shares r (some q) = text_eq q.path r.path
single_config _ = none

abbrev pub base_of : Option Resolved → Text
base_of none = []
base_of (some r) = r.base

abbrev pub config_path : Option Resolved → Option Text
config_path none = none
config_path (some r) = some r.path

abbrev pub per_group : Group → Invocation
per_group (k, files) = record { files = sorted files; config = config_path k; cwd = base_of k }

-- _lane_invocations, or None where it raises as the lane needs a group() hook
unfoldable pub lane_invocations : Lane → List Group → Option (List Invocation)
unfolding insert_any insert_group text_eq
lane_invocations lane_a groups = some (
    record {
      files = sorted (files_of (sort_groups groups));
      config = single_config groups;
      cwd = [];
    }
    ∷ [])
lane_invocations lane_c groups = some (
    record {
      files = sorted (files_of (sort_groups groups));
      config = single_config groups;
      cwd = [];
    }
    ∷ [])
lane_invocations lane_b groups = some (map per_group (sort_groups groups))
lane_invocations lane_d groups = none
