-- ===== src/Checks/Plan/Honest.antt =====
-- What a plan of capabilities/rw-checks/tools/_plan.py leaves out, and what it says of that.
use mathlib.Core.Option.{some-injective}
use rw_checks_codecollection.Prelude.{
  ℕ, zero, suc, ◌≡◌, refl, sym, ap, ◌∙◌, subst, inl, inr, Bool, true, ◌&&◌, List, [], ◌∷◌, ◌++◌,
  Option, none, some, Text, codes, show_ℕ, length, mem, mem-append, arith, Option-cases,
}
use rw_checks_codecollection.Findings.{Finding}
use rw_checks_codecollection.Checks.Runner.{Applicability}
use rw_checks_codecollection.Checks.Runner.Scope.{all_files}
use rw_checks_codecollection.Checks.Plan.{
  Resolved, Group, group_files, sort_groups, files_of, lane_invocations, eligible_files,
}
use rw_checks_codecollection.Checks.Plan.Scope.{
  is_eligible, mem-eligible_files, mem-lane_invocations, is_configured, mem-group_files,
  group_files-unconfigured,
}
use rw_checks_codecollection.Checks.Plan.Steps.{
  Module, Guarded, only_skipped, skipped_of, pop_group, unsafe_note, unsafe_tail, unconfigured_tail,
  guard_step, guard_loop, first_notes, finished_with, narrowed, after_guard, guarded, grouped_by,
  grouped, no_files, unless_ci, plan_files, plan,
}

-- A note is not empty.
abbrev IsNote : Text → Type 0
IsNote t = (c : ℕ) × (u : Text) × (t ≡ c ∷ u)

append-IsNote : (t u : Text) → IsNote u → IsNote (t ++ u)
append-IsNote [] u h = h
append-IsNote (c ∷ t) u h = (c, t ++ u, refl)

of-IsNote : (t : Text) → IsNote (codes " of " ++ t)
of-IsNote t = (32, codes "of " ++ t, refl)

-- The first note, if there is one.
abbrev IsNoted : List Text → Type 0
IsNoted [] = Unit
IsNoted (n ∷ ns) = IsNote n

snoc-IsNoted : (ns : List Text) (n : Text) → IsNoted ns → IsNote n → IsNoted (ns ++ n ∷ [])
snoc-IsNoted [] n h k = k
snoc-IsNoted (m ∷ ns) n h k = h

skipped_of-none : (notes : List Text) → IsNoted notes → skipped_of notes ≡ none → notes ≡ []
skipped_of-none [] h k = refl
skipped_of-none (n ∷ []) (c, u, e) k = absurd (cc (rw e at k))
skipped_of-none (n ∷ m ∷ ns) (c, u, e) k = absurd (cc (rw e at k))

snoc-not_nil : (ns : List Text) (n : Text) → ns ++ n ∷ [] ≡ [] → ⊥
snoc-not_nil [] n h = cc
snoc-not_nil (m ∷ ns) n h = cc

mem-pop_group :
    (x : Text) (key : Option Resolved) (gs : List Group)
    → mem x (files_of (pop_group key gs)) ≡ true
    → mem x (files_of gs) ≡ true
unfolding pop_group
mem-pop_group x key [] h = h
mem-pop_group x key ((k, files) ∷ gs) h = ground (
  arith,
  mem-append x files (files_of gs),
  mem-append x files (files_of (pop_group key gs)),
  mem-pop_group x key gs,
)

-- What a stage does to the groups: it adds no file, it keeps its notes, and without a note it has kept
-- every group.
record Narrows (s t : Guarded) : Type 0 where
  scope : (x : Text) → mem x (files_of t.groups) ≡ true → mem x (files_of s.groups) ≡ true
  noted : IsNoted t.notes
  whole : t.notes ≡ [] → (t.groups ≡ s.groups) × (s.notes ≡ [])

module _ (module' : Module) (total : ℕ) where
  unsafe_note-IsNote : (r : Resolved) (count : ℕ) → IsNote (unsafe_note module' total r count)
  unsafe_note-IsNote r count =
      append-IsNote (show_ℕ count) _ (of-IsNote (unsafe_tail module' total r))

  guard_step-Narrows :
      (r : Resolved) (files : List Text) (reason : Option Text) (s : Guarded)
      → IsNoted s.notes
      → Narrows s (guard_step module' total r files reason s)
  guard_step-Narrows r files none s h = record {
    scope = λ x k. k;
    noted = h;
    whole = λ e. (refl, e);
  }
  guard_step-Narrows r files (some reason) s h = record {
    scope = λ x k. mem-pop_group x (some r) s.groups k;
    noted = snoc-IsNoted s.notes _ h (unsafe_note-IsNote r (length files));
    whole = λ e. absurd (snoc-not_nil s.notes _ e);
  }

  guard_loop-Narrows :
      (guard : Resolved → List Text → Option Text) (gs : List Group) (s : Guarded)
      → IsNoted s.notes
      → Narrows s (guard_loop module' total guard gs s)
  unfolding guard_loop
  guard_loop-Narrows guard [] s h = record { scope = λ x k. k; noted = h; whole = λ e. (refl, e) }
  guard_loop-Narrows guard ((none, files) ∷ gs) s h = guard_loop-Narrows guard gs s h
  guard_loop-Narrows guard ((some r, files) ∷ gs) s h =
      let one = guard_step-Narrows r files (guard r files) s h in
      let mid = guard_step module' total r files (guard r files) s in
      let more = guard_loop-Narrows guard gs mid one.noted in
      record {
        scope = λ x k. one.scope x (more.scope x k);
        noted = more.noted;
        whole = λ e.
            let (same, left) = more.whole e in
            let (before, none_before) = one.whole left in (same ∙ before, none_before);
      }

-- What a plan makes of the groups: only their files, and all of them if it reports nothing skipped.
record Makes (s : Guarded) (a : Applicability) : Type 0 where
  scope : (x : Text) → mem x (all_files a.invocations) ≡ true → mem x (files_of s.groups) ≡ true
  whole :
      a.skipped ≡ none
      → (s.notes ≡ [])
        × ((x : Text) → mem x (files_of s.groups) ≡ true → mem x (all_files a.invocations) ≡ true)

only_skipped-Makes :
    (s : Guarded) (reason : Text) (refusals : List Finding) → Makes s (only_skipped reason refusals)
unfolding mem
only_skipped-Makes s reason refusals = record { scope = λ x k. cc; whole = λ e. absurd (cc) }

Makes-Narrows : (s t : Guarded) (a : Applicability) → Narrows s t → Makes t a → Makes s a
Makes-Narrows s t a n m = record {
  scope = λ x k. n.scope x (m.scope x k);
  whole = λ e.
      let (unnoted, all) = m.whole e in
      let (same, none_before) = n.whole unnoted in
      (none_before, λ x k. all x (subst (λ gs. mem x (files_of gs) ≡ true) (sym same) k));
}

module _ (module' : Module) (total : ℕ) (no_narrow : module'.narrow ≡ none)
    (no_group : module'.group ≡ none) where
  finished-Makes :
      (s : Guarded) (refusals : List Finding) (a : Applicability)
      → IsNoted s.notes
      → finished_with module' total s.notes refusals (lane_invocations module'.lane s.groups)
        ≡ some a
      → Makes s a
  finished-Makes s refusals a h e = elim (Option-cases (lane_invocations module'.lane s.groups)) [
    | inl refused ↦ cc (rw refused at e)
    | inr (invs, made) ↦
        let is = some-injective _ _ (rw made at e) in
        let files = λ (x : Text). mem-lane_invocations x module'.lane s.groups invs made in
        subst (Makes s) is (record {
          scope = λ x k. sym (files x) ∙ k;
          whole = λ q. (skipped_of-none s.notes h q, λ x k. files x ∙ k);
        })
  ]

  narrowed-Makes :
      (s : Guarded) (a : Applicability)
      → IsNoted s.notes
      → narrowed module' total module'.narrow s ≡ some a
      → Makes s a
  narrowed-Makes s a h e = finished-Makes s s.refusals a h (rw (no_narrow, no_group) at e)

  after_guard-Makes :
      (s t : Guarded) (gs : List Group) (a : Applicability)
      → Narrows s t
      → after_guard module' total gs t ≡ some a
      → Makes s a
  after_guard-Makes s t [] a n e =
      subst (Makes s) (some-injective _ _ e) (only_skipped-Makes s _ t.refusals)
  after_guard-Makes s t (g ∷ gs) a n e = Makes-Narrows s t a n (narrowed-Makes t a n.noted e)

  guarded-Makes :
      (guard : Option (Resolved → List Text → Option Text)) (s : Guarded) (a : Applicability)
      → IsNoted s.notes
      → guarded module' total guard s ≡ some a
      → Makes s a
  guarded-Makes none s a h e = narrowed-Makes s a h e
  guarded-Makes (some guard) s a h e =
      let t = guard_loop module' total guard (sort_groups s.groups) s in
      after_guard-Makes s t t.groups a
        (guard_loop-Narrows module' total guard (sort_groups s.groups) s h) e

  first_notes-IsNoted : (n : ℕ) → IsNoted (first_notes module' total n)
  first_notes-IsNoted zero = tt
  first_notes-IsNoted (suc n) =
      append-IsNote (show_ℕ (suc n)) _ (of-IsNote (unconfigured_tail module' total))

  grouped_by-Makes :
      (gs : List Group) (n : ℕ) (s : Guarded) (a : Applicability)
      → IsNoted s.notes
      → grouped_by module' total gs n s ≡ some a
      → Makes s a
  grouped_by-Makes [] zero s a h e = guarded-Makes module'.guard s a h e
  grouped_by-Makes [] (suc n) s a h e =
      subst (Makes s) (some-injective _ _ e) (only_skipped-Makes s _ [])
  grouped_by-Makes (g ∷ gs) n s a h e = guarded-Makes module'.guard s a h e

  first_notes-zero : (n : ℕ) → first_notes module' total n ≡ [] → n ≡ 0
  first_notes-zero zero h = refl
  first_notes-zero (suc n) h = absurd (cc)

  -- A group per file that is configured, and a note if some are not.
  grouped-Makes :
      (files : List Text) (a : Applicability)
      → grouped module' total (group_files module'.config_of module'.required files no_files)
        ≡ some a
      → ((x : Text)
          → mem x (all_files a.invocations) ≡ true
          → (mem x files && is_configured module'.config_of module'.required x) ≡ true)
        × (a.skipped ≡ none
            → (x : Text) → mem x files ≡ true
            → mem x (all_files a.invocations) ≡ true)
  unfolding mem
  grouped-Makes files a e =
      let g = group_files module'.config_of module'.required files no_files in
      let makes =
        grouped_by-Makes g.groups g.unconfigured _ a (first_notes-IsNoted g.unconfigured) e in
      let files_in =
        λ (x : Text). mem-group_files module'.config_of module'.required x files no_files in
      (
        (λ x k. sym (files_in x) ∙ makes.scope x k),
        λ q x k.
            let (unnoted, whole) = makes.whole q in
            let lone = first_notes-zero g.unconfigured unnoted in
            let has =
              (group_files-unconfigured module'.config_of module'.required x files no_files lone).1
                k in
            whole x (files_in x ∙ ground (arith, k, has)),
      )

-- What a plan of the eligible files holds of the files of its invocations.
record Plans (module' : Module) (files : List Text) (a : Applicability) : Type 0 where
  scope :
      (x : Text)
      → mem x (all_files a.invocations) ≡ true
      → (mem x files && is_configured module'.config_of module'.required x) ≡ true
  whole :
      a.skipped ≡ none → (x : Text) → mem x files ≡ true → mem x (all_files a.invocations) ≡ true

only_skipped-Plans :
    (module' : Module) (files : List Text) (reason : Text)
    → Plans module' files (only_skipped reason [])
unfolding mem
only_skipped-Plans module' files reason = record { scope = λ x k. cc; whole = λ e. absurd (cc) }

unless_ci-Plans :
    (module' : Module) (files : List Text) (ci : Option Text) (planned : Option Applicability)
    (a : Applicability)
    → (planned ≡ some a → Plans module' files a)
    → unless_ci ci planned ≡ some a
    → Plans module' files a
unless_ci-Plans module' files none planned a h e = h e
unless_ci-Plans module' files (some reason) planned a h e =
    subst (Plans module' files) (some-injective _ _ e) (only_skipped-Plans module' files reason)

plan_files-Plans :
    (module' : Module) (files : List Text) (a : Applicability)
    → module'.narrow ≡ none
    → module'.group ≡ none
    → plan_files module' files ≡ some a
    → Plans module' files a
unfolding plan_files
plan_files-Plans module' [] a no_narrow no_group e =
    subst (Plans module' []) (some-injective _ _ e) (only_skipped-Plans module' [] _)
plan_files-Plans module' (f ∷ files) a no_narrow no_group e =
    unless_ci-Plans module' (f ∷ files) module'.ci _ a
      (λ q.
        let (scope, whole) =
          grouped-Makes module' (length (f ∷ files)) no_narrow no_group (f ∷ files) a q in
        record { scope = scope; whole = whole })
      e

module _ (fnmatch : Text → Text → Bool) (is_inside : Text → Bool) (module' : Module)
    (changed : List Text) (a : Applicability) (no_narrow : module'.narrow ≡ none)
    (no_group : module'.group ≡ none)
    (planned : plan fnmatch is_inside module' (some changed) ≡ some a) where
  plan-Plans : Plans module' (eligible_files fnmatch is_inside changed module'.patterns) a
  unfolding plan
  plan-Plans = plan_files-Plans module' _ a no_narrow no_group planned

  -- A check without hooks of its own runs only on changed files that match its patterns, lie inside the
  -- tree, and have a config if it requires one.
  pub plan-scope :
      (x : Text)
      → mem x (all_files a.invocations) ≡ true
      → ((mem x changed && is_eligible fnmatch is_inside module'.patterns x)
          && is_configured module'.config_of module'.required x)
        ≡ true
  plan-scope x h =
      ap (λ b. b && is_configured module'.config_of module'.required x)
        (sym (mem-eligible_files fnmatch is_inside x changed module'.patterns))
      ∙ plan-Plans.scope x h
