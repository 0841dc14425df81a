-- ===== src/Checks/Plan/Scope.antt =====
-- The files of a plan of capabilities/rw-checks/tools/_plan.py, against the eligible changed files.
use mathlib.Core.Option.{some-injective}
use rw_checks_codecollection.Prelude.{
  ◌≡◌, refl, sym, ap, ap₂, ◌∙◌, inl, inr, Bool, true, false, not, ◌&&◌, ◌||◌, List, [], ◌∷◌, ◌++◌,
  Option, some, Text, text_eq, text_eq_iff, mem, append-nil, mem-append, map, arith, Bool-cases,
}
use rw_checks_codecollection.Checks.Runner.{Invocation}
use rw_checks_codecollection.Checks.Runner.Scope.{all_files}
use rw_checks_codecollection.Checks.Plan.{
  Resolved, Lane, lane_a, lane_b, lane_c, lane_d, Group, insert_any, sorted, add_to, is_required,
  Grouped, file_step, group_files, insert_group, sort_groups, files_of, single_config, per_group,
  insert_text, matches, eligible_files, lane_invocations,
}

mem-insert_any : (x t : Text) (us : List Text) → mem x (insert_any t us) ≡ (text_eq x t || mem x us)
unfolding mem insert_any
mem-insert_any x t [] = refl
mem-insert_any x t (u ∷ us) = ground (arith, mem-insert_any x t us)

mem-sorted : (x : Text) (ts : List Text) → mem x (sorted ts) ≡ mem x ts
unfolding mem
mem-sorted x [] = refl
mem-sorted x (t ∷ ts) =
    mem-insert_any x t (sorted ts) ∙ ap (λ b. text_eq x t || b) (mem-sorted x ts)

mem-insert_group :
    (x : Text) (g : Group) (gs : List Group)
    → mem x (files_of (insert_group g gs)) ≡ (mem x g.1 || mem x (files_of gs))
unfolding insert_group
mem-insert_group x (k, files) [] = mem-append x files []
mem-insert_group x (k, files) ((h, others) ∷ gs) = ground (
  arith,
  mem-append x files (others ++ files_of gs),
  mem-append x others (files_of gs),
  mem-append x others (files_of (insert_group (k, files) gs)),
  mem-insert_group x (k, files) gs,
)

mem-sort_groups :
    (x : Text) (gs : List Group) → mem x (files_of (sort_groups gs)) ≡ mem x (files_of gs)
mem-sort_groups x [] = refl
mem-sort_groups x ((k, files) ∷ gs) =
    mem-insert_group x (k, files) (sort_groups gs)
    ∙ ap (λ b. mem x files || b) (mem-sort_groups x gs)
    ∙ sym (mem-append x files (files_of gs))

mem-add_to :
    (x : Text) (key : Option Resolved) (rel : Text) (gs : List Group)
    → mem x (files_of (add_to key rel gs)) ≡ (mem x (files_of gs) || text_eq x rel)
unfolding mem add_to
mem-add_to x key rel [] = ground arith
mem-add_to x key rel ((k, files) ∷ gs) = ground (
  arith,
  mem-append x (files ++ rel ∷ []) (files_of gs),
  mem-append x files (rel ∷ []),
  mem-append x files (files_of gs),
  mem-append x files (files_of (add_to key rel gs)),
  mem-add_to x key rel gs,
)

mem-per_group :
    (x : Text) (gs : List Group) → mem x (all_files (map per_group gs)) ≡ mem x (files_of gs)
mem-per_group x [] = refl
mem-per_group x ((k, files) ∷ gs) =
    mem-append x (sorted files) (all_files (map per_group gs))
    ∙ ap₂ ◌||◌ (mem-sorted x files) (mem-per_group x gs)
    ∙ sym (mem-append x files (files_of gs))

one_run :
    (x : Text) (gs : List Group) (invs : List Invocation)
    → record { files = sorted (files_of (sort_groups gs)); config = single_config gs; cwd = [] }
        ∷ []
      ≡ invs
    → mem x (all_files invs) ≡ mem x (files_of gs)
one_run x gs invs e =
    ap (λ is. mem x (all_files is)) (sym e)
    ∙ ap (mem x) (append-nil (sorted (files_of (sort_groups gs))))
    ∙ mem-sorted x (files_of (sort_groups gs))
    ∙ mem-sort_groups x gs

pub mem-lane_invocations :
    (x : Text) (lane : Lane) (gs : List Group) (invs : List Invocation)
    → lane_invocations lane gs ≡ some invs
    → mem x (all_files invs) ≡ mem x (files_of gs)
unfolding lane_invocations
mem-lane_invocations x lane_a gs invs h = one_run x gs invs (some-injective _ _ h)
mem-lane_invocations x lane_c gs invs h = one_run x gs invs (some-injective _ _ h)
mem-lane_invocations x lane_b gs invs h =
    ap (λ is. mem x (all_files is)) (sym (some-injective _ _ h))
    ∙ mem-per_group x (sort_groups gs)
    ∙ mem-sort_groups x gs
mem-lane_invocations x lane_d gs invs h = cc

-- The file has a config, or needs none.
abbrev pub is_configured : (Text → Option Resolved) → Bool → Text → Bool
is_configured config_of required x = not (is_required required (config_of x))

configured-same :
    (config_of : Text → Option Resolved) (required : Bool) (x rel : Text)
    → text_eq x rel ≡ true
    → is_configured config_of required x ≡ is_configured config_of required rel
configured-same config_of required x rel h =
    ap (λ t. is_configured config_of required t) ((text_eq_iff x rel).0 h)

mem-file_step :
    (x : Text) (lacks : Bool) (key : Option Resolved) (rel : Text) (g : Grouped)
    → mem x (files_of (file_step lacks key rel g).groups)
      ≡ (mem x (files_of g.groups) || (text_eq x rel && not lacks))
mem-file_step x true key rel g = ground arith
mem-file_step x false key rel g = mem-add_to x key rel g.groups ∙ ground arith

pub mem-group_files :
    (config_of : Text → Option Resolved) (required : Bool) (x : Text) (files : List Text)
    (g : Grouped)
    → mem x (files_of (group_files config_of required files g).groups)
      ≡ (mem x (files_of g.groups) || (mem x files && is_configured config_of required x))
unfolding mem group_files
mem-group_files config_of required x [] g = ground arith
mem-group_files config_of required x (rel ∷ files) g =
    let lacks = is_required required (config_of rel) in
    let rest = mem-group_files config_of required x files (file_step lacks (config_of rel) rel g) in
    let step = mem-file_step x lacks (config_of rel) rel g in
    elim (Bool-cases (text_eq x rel)) [
      | inl same ↦ ground (arith, rest, step, same, configured-same config_of required x rel same)
      | inr apart ↦ ground (arith, rest, step, apart)
    ]

step-unconfigured :
    (lacks : Bool) (key : Option Resolved) (rel : Text) (g : Grouped)
    → (file_step lacks key rel g).unconfigured ≡ 0
    → (g.unconfigured ≡ 0) × (lacks ≡ false)
step-unconfigured true key rel g h = absurd (omega arith)
step-unconfigured false key rel g h = (h, refl)

pub group_files-unconfigured :
    (config_of : Text → Option Resolved) (required : Bool) (x : Text) (files : List Text)
    (g : Grouped)
    → (group_files config_of required files g).unconfigured ≡ 0
    → (g.unconfigured ≡ 0) × (mem x files ≡ true → is_configured config_of required x ≡ true)
unfolding mem group_files
group_files-unconfigured config_of required x [] g h = (h, λ k. cc)
group_files-unconfigured config_of required x (rel ∷ files) g h =
    let lacks = is_required required (config_of rel) in
    let (none_before, later) =
      group_files-unconfigured config_of required x files (file_step lacks (config_of rel) rel g)
        h in
    let (before, has) = step-unconfigured lacks (config_of rel) rel g none_before in
    (
      before,
      λ k. elim (Bool-cases (text_eq x rel)) [
        | inl same ↦ configured-same config_of required x rel same ∙ ap not has
        | inr apart ↦ later (ground (arith, k, apart))
      ],
    )

mem-insert_text :
    (x t : Text) (us : List Text) → mem x (insert_text t us) ≡ (text_eq x t || mem x us)
unfolding mem insert_text
mem-insert_text x t [] = refl
mem-insert_text x t (u ∷ us) = elim (Bool-cases (text_eq t u)) [
  | inl same ↦
      let e : text_eq x t ≡ text_eq x u = ap (text_eq x) ((text_eq_iff t u).0 same) in
      rw same (ground (arith, e))
  | inr apart ↦ rw apart (ground (arith, mem-insert_text x t us))
]

-- A file that a plan may run on: it matches, and it exists in the tree.
abbrev pub is_eligible : (Text → Text → Bool) → (Text → Bool) → List Text → Text → Bool
is_eligible fnmatch is_inside patterns x = matches fnmatch x patterns && is_inside x

-- The eligible files are the changed ones that match and lie inside the tree.
pub mem-eligible_files :
    (fnmatch : Text → Text → Bool) (is_inside : Text → Bool) (x : Text)
    (changed patterns : List Text)
    → mem x (eligible_files fnmatch is_inside changed patterns)
      ≡ (mem x changed && is_eligible fnmatch is_inside patterns x)
unfolding mem eligible_files
mem-eligible_files fnmatch is_inside x [] patterns = refl
mem-eligible_files fnmatch is_inside x (rel ∷ changed) patterns =
    let rest = mem-eligible_files fnmatch is_inside x changed patterns in
    let kept = mem-insert_text x rel (eligible_files fnmatch is_inside changed patterns) in
    elim (Bool-cases (text_eq x rel)) [
      | inl same ↦
          let e = ap (is_eligible fnmatch is_inside patterns) ((text_eq_iff x rel).0 same) in
          elim (Bool-cases (is_eligible fnmatch is_inside patterns rel)) [
            | inl fits ↦ rw fits (ground (arith, kept, same, e, fits))
            | inr not_fit ↦ rw not_fit (ground (arith, rest, same, e, not_fit))
          ]
      | inr apart ↦ elim (Bool-cases (is_eligible fnmatch is_inside patterns rel)) [
        | inl fits ↦ rw fits (ground (arith, kept, rest, apart))
        | inr not_fit ↦ rw not_fit (ground (arith, rest, apart))
      ]
    ]
