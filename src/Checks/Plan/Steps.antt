-- ===== src/Checks/Plan/Steps.antt =====
-- plan of capabilities/rw-checks/tools/_plan.py, step by step. The hooks of a check module are parameters.
use rw_checks_codecollection.Prelude.{
  ℕ, zero, suc, Bool, List, [], ◌∷◌, ◌++◌, Option, none, some, if◌then◌else◌, Text, codes, length,
  show_ℕ, text_eq,
}
use rw_checks_codecollection.Findings.{Finding}
use rw_checks_codecollection.Checks.Runner.{Invocation, Applicability}
use rw_checks_codecollection.Checks.Plan.{
  Resolved, Lane, Group, resolved_eq, Grouped, group_files, sort_groups, lane_invocations,
  eligible_files,
}

-- A check module and the tree, as plan sees them: `guard` is GUARD on what guard_paths lists, with
-- `refusal` for unsafe_config_finding; `ci` is ci_already_runs for CI_BINARY.
pub record Module : Type 0 where
  pub name : Text
  pub kind : Text
  pub patterns : List Text
  pub ci : Option Text
  pub required : Bool
  pub config_of : Text → Option Resolved
  pub guard : Option (Resolved → List Text → Option Text)
  pub refusal : Text → List Finding
  pub narrow : Option (List Group → List Group × Option Text)
  pub group : Option (List Group → List Invocation)
  pub lane : Lane

-- What the guard leaves: groups in order, refusals, notes.
pub record Guarded : Type 0 where
  pub groups : List Group
  pub refusals : List Finding
  pub notes : List Text

abbrev pub only_skipped : Text → List Finding → Applicability
only_skipped reason refusals = record {
  invocations = [];
  skipped = some reason;
  refusals = refusals;
}

-- "; ".join(notes)
abbrev pub join_notes : List Text → Text
join_notes [] = []
join_notes (n ∷ []) = n
join_notes (n ∷ m ∷ ns) = n ++ codes "; " ++ join_notes (m ∷ ns)

-- "; ".join(notes) or None
abbrev pub skipped_of : List Text → Option Text
skipped_of notes = elim (join_notes notes) [ [] ↦ none | c ∷ t ↦ some (c ∷ t) ]

-- groups.pop(resolved)
unfoldable pub pop_group : Option Resolved → List Group → List Group
unfolding text_eq
pop_group key [] = []
pop_group key ((k, files) ∷ groups) =
    let rest = pop_group key groups in if resolved_eq key k then groups else (k, files) ∷ rest

module _ (module' : Module) (total : ℕ) where
  abbrev pub unsafe_tail : Resolved → Text
  unsafe_tail r =
      show_ℕ total
      ++ codes " changed "
      ++ module'.kind
      ++ codes " files use an unsafe "
      ++ module'.name
      ++ codes " config ("
      ++ r.path
      ++ codes ")"

  abbrev pub unsafe_note : Resolved → ℕ → Text
  unsafe_note r count = show_ℕ count ++ (codes " of " ++ unsafe_tail r)

  abbrev pub guard_step : Resolved → List Text → Option Text → Guarded → Guarded
  guard_step r files none s = s
  guard_step r files (some reason) s = record {
    groups = pop_group (some r) s.groups;
    refusals = s.refusals ++ module'.refusal reason;
    notes = s.notes ++ unsafe_note r (length files) ∷ [];
  }

  -- The loop over the configs in the order of their paths.
  unfoldable pub guard_loop : (Resolved → List Text → Option Text) → List Group → Guarded → Guarded
  unfolding pop_group
  guard_loop guard [] s = s
  guard_loop guard ((none, files) ∷ groups) s = guard_loop guard groups s
  guard_loop guard ((some r, files) ∷ groups) s =
      guard_loop guard groups (guard_step r files (guard r files) s)

  abbrev pub unconfigured_tail : Text
  unconfigured_tail =
      show_ℕ total
      ++ codes " changed "
      ++ module'.kind
      ++ codes " files have no "
      ++ module'.name
      ++ codes " config"

  abbrev pub unconfigured_note : ℕ → Text
  unconfigured_note count = show_ℕ count ++ (codes " of " ++ unconfigured_tail)

  abbrev pub first_notes : ℕ → List Text
  first_notes zero = []
  first_notes (suc n) = unconfigured_note (suc n) ∷ []

  abbrev pub with_note : List Text → Option Text → List Text
  with_note notes none = notes
  with_note notes (some []) = notes
  with_note notes (some (c ∷ t)) = notes ++ (c ∷ t) ∷ []

  abbrev pub finished_with :
      List Text → List Finding → Option (List Invocation) → Option Applicability
  finished_with notes refusals none = none
  finished_with notes refusals (some invs) =
      some (record { invocations = invs; skipped = skipped_of notes; refusals = refusals })

  abbrev pub invocations_of :
      Option (List Group → List Invocation) → List Group → Option (List Invocation)
  invocations_of none groups = lane_invocations module'.lane groups
  invocations_of (some group) groups = some (group groups)

  abbrev pub after_narrow : List Group → List Text → List Finding → Option Applicability
  after_narrow [] notes refusals =
      some (record { invocations = []; skipped = skipped_of notes; refusals = refusals })
  after_narrow (g ∷ groups) notes refusals =
      finished_with notes refusals (invocations_of module'.group (g ∷ groups))

  abbrev pub narrowed :
      Option (List Group → List Group × Option Text) → Guarded → Option Applicability
  narrowed none s = finished_with s.notes s.refusals (invocations_of module'.group s.groups)
  narrowed (some narrow) s =
      let (groups, note) = narrow s.groups in
      after_narrow groups (with_note s.notes note) s.refusals

  abbrev pub all_unsafe : Text
  all_unsafe = codes "every applicable " ++ module'.name ++ codes " config is unsafe"

  abbrev pub after_guard : List Group → Guarded → Option Applicability
  after_guard [] s = some (only_skipped all_unsafe s.refusals)
  after_guard (g ∷ groups) s = narrowed module'.narrow s

  abbrev pub guarded : Option (Resolved → List Text → Option Text) → Guarded → Option Applicability
  guarded none s = narrowed module'.narrow s
  guarded (some guard) s =
      let t = guard_loop guard (sort_groups s.groups) s in after_guard t.groups t

  abbrev pub no_config : Text
  no_config = codes "no " ++ module'.name ++ codes " config applies to the changed files"

  -- `if unconfigured`, and in it `if not groups`
  abbrev pub grouped_by : List Group → ℕ → Guarded → Option Applicability
  grouped_by [] (suc n) s = some (only_skipped no_config [])
  grouped_by groups n s = guarded module'.guard s

  abbrev pub grouped : Grouped → Option Applicability
  grouped g =
      grouped_by g.groups g.unconfigured
        (record { groups = g.groups; refusals = []; notes = first_notes g.unconfigured })

abbrev pub no_files : Grouped
no_files = record { groups = []; unconfigured = 0 }

abbrev pub unless_ci : Option Text → Option Applicability → Option Applicability
unless_ci none planned = planned
unless_ci (some reason) planned = some (only_skipped reason [])

-- What plan does with the eligible files.
unfoldable pub plan_files : Module → List Text → Option Applicability
unfolding group_files guard_loop lane_invocations
plan_files module' [] =
    some (only_skipped (codes "no changed " ++ module'.kind ++ codes " files") [])
plan_files module' (f ∷ files) = unless_ci module'.ci (
    grouped module' (length (f ∷ files))
      (group_files module'.config_of module'.required (f ∷ files) no_files))

unfoldable pub plan :
    (Text → Text → Bool) → (Text → Bool) → Module → Option (List Text) → Option Applicability
unfolding plan_files eligible_files
plan fnmatch is_inside module' none =
    some (only_skipped (codes "base commit unavailable; nothing to scope to") [])
plan fnmatch is_inside module' (some changed) =
    plan_files module' (eligible_files fnmatch is_inside changed module'.patterns)
