-- ===== src/Checks/Runner/Scope.antt =====
-- The scope of run_check of capabilities/rw-checks/tools/_runner.py: what it may report, and what it
-- counts.
use rw_checks_codecollection.Prelude.{
  ◌≡◌, refl, sym, subst, inl, inr, ◌⊎◌, Bool, true, false, List, [], ◌∷◌, ◌++◌, Option, Text,
  length, length-append, append_assoc, mem-append, All, All-append, All-map, arith, Bool-cases,
}
use rw_checks_codecollection.Faults.{Result, ok, ok-injective, >>=-eq-ok}
use rw_checks_codecollection.Findings.{Finding, FindingsResult, keep_if, cap}
use rw_checks_codecollection.Checks.Batches.{batches, concat, concat-batches}
use rw_checks_codecollection.Checks.Runner.{
  Invocation, Check, is_allowed, Gathered, chunk_of, gathered_with, run_chunks, run_invocations,
  run_check, names_file, moved_to, realign,
}

-- The finding is on one of the files, or on the repository as a whole.
abbrev pub IsAllowed : List Text → Finding → Type 0
IsAllowed files f = is_allowed files f ≡ true

abbrev pub all_files : List Invocation → List Text
all_files [] = []
all_files (inv ∷ invs) = inv.files ++ all_files invs

keep_if-All : (p : Finding → Bool) (fs : List Finding) → All (λ f. p f ≡ true) (keep_if p fs)
keep_if-All p [] = tt
keep_if-All p (f ∷ fs) = elim (Bool-cases (p f)) [
  | inl kept ↦ rw kept (kept, keep_if-All p fs)
  | inr gone ↦ rw gone (keep_if-All p fs)
]

IsAllowed-left : (xs ys : List Text) (f : Finding) → IsAllowed xs f → IsAllowed (xs ++ ys) f
unfolding is_allowed
IsAllowed-left xs ys f h = ground (arith, mem-append f.path xs ys)

IsAllowed-right : (xs ys : List Text) (f : Finding) → IsAllowed ys f → IsAllowed (xs ++ ys) f
unfolding is_allowed
IsAllowed-right xs ys f h = ground (arith, mem-append f.path xs ys)

-- What a run over files gathers: findings on those alone, and their number.
pub record Covers (files : List Text) (g : Gathered) : Type 0 where
  pub allowed : All (IsAllowed files) g.findings
  pub counted : g.checked ≡ length files

gathered_with-Covers :
    (chunk files : List Text) (got : List Finding) (rest : Gathered)
    → Covers files rest
    → Covers (chunk ++ files) (gathered_with chunk got rest)
gathered_with-Covers chunk files got rest h = record {
  allowed =
      All-append (IsAllowed (chunk ++ files)) (keep_if (is_allowed chunk) got) rest.findings
        (All-map (IsAllowed-left chunk files) (keep_if (is_allowed chunk) got)
          (keep_if-All (is_allowed chunk) got))
        (All-map (IsAllowed-right chunk files) rest.findings h.allowed);
  counted = omega (arith, h.counted, length-append chunk files);
}

module _ (module' : Check) where
  run_chunks-Covers :
      (inv : Invocation) (chunks : List (List Text)) (later : Result Gathered) (files : List Text)
      (g : Gathered)
      → ((r : Gathered) → later ≡ ok r → Covers files r)
      → run_chunks module' inv chunks later ≡ ok g
      → Covers (concat chunks ++ files) g
  unfolding run_chunks
  run_chunks-Covers inv [] later files g h e = h g e
  run_chunks-Covers inv (chunk ∷ chunks) later files g h e =
      let (got, _, k) = >>=-eq-ok (module'.check (chunk_of inv chunk)) _ e in
      let (rest, ran, last) = >>=-eq-ok (run_chunks module' inv chunks later) _ k in
      subst (Covers ((chunk ++ concat chunks) ++ files)) (ok-injective last) (
        subst (λ fs. Covers fs (gathered_with chunk got rest))
          (sym (append_assoc chunk (concat chunks) files))
          (gathered_with-Covers chunk (concat chunks ++ files) got rest
            (run_chunks-Covers inv chunks later files rest h ran)))

  run_invocations-Covers :
      (invs : List Invocation) (g : Gathered)
      → run_invocations module' invs ≡ ok g
      → Covers (all_files invs) g
  unfolding run_invocations
  run_invocations-Covers [] g e =
      subst (Covers []) (ok-injective e) (record { allowed = tt; counted = refl })
  run_invocations-Covers (inv ∷ invs) g e =
      subst (λ fs. Covers (fs ++ all_files invs) g) (concat-batches inv.files)
        (run_chunks-Covers inv (batches inv.files) (run_invocations module' invs) (all_files invs) g
          (run_invocations-Covers invs) e)

  -- A check that returns reports its refusals and then findings that are all on the files of its
  -- invocations or on the repository as a whole, however its tool behaves; it counts each of those files
  -- once, across all batches.
  pub run_check-Covers :
      (changed : Option (List Text)) (r : FindingsResult)
      → run_check module' changed ≡ ok r
      → let a = module'.applicable changed in
        (g : Gathered) × Covers (all_files a.invocations) g
        × (r ≡ cap (a.refusals ++ g.findings) a.skipped g.checked)
  unfolding run_check
  run_check-Covers changed r h =
      let a = module'.applicable changed in
      let (g, ran, e) = >>=-eq-ok (run_invocations module' a.invocations) _ h in
      (g, run_invocations-Covers a.invocations g ran, sym (ok-injective e))

-- The only candidate of a finding, if there is exactly one.
moved_to-cases :
    (f : Finding) (xs : List Text)
    → (moved_to f xs ≡ f) ⊎ ((x : Text) × (xs ≡ x ∷ []) × (moved_to f xs ≡ record f { path = x }))
moved_to-cases f [] = inl refl
moved_to-cases f (x ∷ []) = inr (x, refl, refl)
moved_to-cases f (x ∷ y ∷ xs) = inl refl

-- Realigning leaves a finding as it is, or moves it to the one file of the invocation that its path names;
-- a finding that is already on a file of the invocation is not touched.
pub realign-cases :
    (files : List Text) (f : Finding)
    → (realign files f ≡ f)
      ⊎ ((x : Text) × (is_allowed files f ≡ false)
          × (keep_if (names_file f.path) files ≡ x ∷ [])
          × (realign files f ≡ record f { path = x }))
unfolding realign
realign-cases files f = elim (Bool-cases (is_allowed files f)) [
  | inl there ↦ rw there (inl refl)
  | inr apart ↦ elim (moved_to-cases f (keep_if (names_file f.path) files)) [
    | inl same ↦ rw apart (inl same)
    | inr (x, one, moved) ↦ rw apart (inr (x, refl, one, moved))
  ]
]
