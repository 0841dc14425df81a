-- ===== src/PathSafe.antt =====
-- sdk/runwhen_capability/pathsafe.py: confined_to and safe_path. An absolute path is the list of its parts; what
-- Path.resolve(strict=True) gives is a parameter.
pub mod Confined
use rw_checks_codecollection.Prelude.{
  ◌≡◌, refl, sym, ap, ◌⊎◌, inl, inr, Bool, true, false, not, ◌||◌, List, [], ◌∷◌, ◌++◌, Option,
  none, some, if◌then◌else◌, Text, text_eq, text_eq_iff, map, any, All, Bool-cases,
}
use rw_checks_codecollection.Paths.{split_slash, no_part, dot_dot}
use rw_checks_codecollection.Faults.{Exn, Result, ok, raise}
use rw_checks_codecollection.Findings.{keep_if}
use rw_checks_codecollection.Findings.Uri.{
  norm_parts, reverse_onto, join_parts, relative_parts, climbs, is_absolute, normpath,
}

-- Path.resolve(strict=True): the path behind all links, FileNotFoundError, another OSError, or an exception of
-- another class, as for a loop of links.
pub data Resolution : Type 0 where
  reaches : List Text → Resolution
  missing failed : Resolution
  throws : Exn → Resolution

-- posixpath.normpath of an absolute path
abbrev pub normal : List Text → List Text
normal parts = reverse_onto (norm_parts true [] parts) []

-- confined_to: os.path.relpath of the target neither is ".." nor starts with "../".
unfoldable pub confined_to : List Text → List Text → Bool
unfolding norm_parts relative_parts climbs
confined_to base target = not (climbs (join_parts (relative_parts (normal base) (normal target))))

-- The parts that pathlib reads from a relative path.
abbrev pub joined_parts : Text → List Text
joined_parts path = keep_if (λ p. not (no_part p)) (split_slash path)

module _ (resolve : List Text → Resolution) (worktree : List Text) where
  abbrev pub if_inside : List Text → List Text → Resolution → Result (Option (List Text))
  if_inside full behind (reaches root) = if confined_to root behind then ok (some full) else ok none
  if_inside full behind missing = ok none
  if_inside full behind failed = ok none
  if_inside full behind (throws exn) = raise exn

  abbrev pub on_resolved : List Text → Resolution → Result (Option (List Text))
  on_resolved full (reaches behind) = if_inside full behind (resolve worktree)
  on_resolved full missing = ok (some full)
  on_resolved full failed = ok none
  on_resolved full (throws exn) = raise exn

  abbrev pub if_confined : List Text → Result (Option (List Text))
  if_confined full = if confined_to worktree full then on_resolved full (resolve full) else ok none

  unfoldable pub safe_path : Text → Result (Option (List Text))
  unfolding normpath split_slash confined_to climbs
  safe_path path =
      let clean = normpath path in
      if is_absolute clean || climbs clean
      then ok none
      else if_confined (worktree ++ joined_parts clean)
