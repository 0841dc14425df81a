-- ===== src/Checks/Failures.antt =====
-- unsafe_config_finding, check_failed_finding and check_exit of capabilities/rw-checks/tools/_common.py: the findings
-- that stand for a check that did not run.
use rw_checks_codecollection.Prelude.{
  ℕ, suc, ◌≡◌, refl, inl, inr, Bool, false, List, [], ◌∷◌, ◌++◌, Option, none, some, ◌==◌,
  if◌then◌else◌, Text, codes, any, show_ℕ, ℤ, pos, negsuc, Option-cases,
}
use rw_checks_codecollection.Findings.{
  Severity, warning, Finding, Record, Worktree, normalized, lstrip, rstrip, finding_of,
  from_records,
}
use rw_checks_codecollection.Checks.Runner.{whole_repo_path}

abbrev before_char : ℕ → Option Text → Option Text
before_char c none = none
before_char c (some t) = some (c ∷ t)

-- reason.partition(": "): what stands before the separator, if there is one.
unfoldable pub before_colon : Text → Option Text
before_colon [] = none
before_colon (c ∷ []) = none
before_colon (c ∷ d ∷ s) =
    let further = before_colon (d ∷ s) in
    if c == 58 then (if d == 32 then some [] else before_char c further) else before_char c further

abbrev if_kept : Text → Option Text → Text
if_kept path none = whole_repo_path
if_kept path (some n) = path

-- The path that survives normalisation, or none.
abbrev pub kept_path : Worktree → Option Text → Text
kept_path tree none = whole_repo_path
kept_path tree (some []) = whole_repo_path
kept_path tree (some (c ∷ path)) = if_kept (c ∷ path) (normalized tree (c ∷ path))

abbrev pub report : Text → Text → Text → Record
report path rule message = record {
  path = path;
  rule = rule;
  line = 0;
  column = 0;
  end_line = 0;
  end_column = 0;
  severity = codes "warning";
  message = message;
  snippet = [];
}

-- f"{n}" of an exit code, which is negative for a signal.
abbrev pub show_code : ℤ → Text
show_code (pos n) = show_ℕ n
show_code (negsuc n) = 45 ∷ show_ℕ (suc n)

abbrev pub or_no_output : Text → Text
or_no_output [] = codes "no output"
or_no_output (c ∷ s) = c ∷ s

abbrev pub code_eq : ℤ → ℤ → Bool
code_eq (pos m) (pos n) = m == n
code_eq (negsuc m) (negsuc n) = m == n
code_eq _ _ = false

-- subprocess.CompletedProcess, as far as check_exit reads it.
pub record Process : Type 0 where
  pub returncode : ℤ
  pub stderr : Text

module _ (tree : Worktree) (capability operation : Text) where
  abbrev warnings : Text → Severity
  warnings raw = warning

  abbrev unsafe_report : Text → Record
  unsafe_report reason =
      report (kept_path tree (before_colon reason)) (codes "rw-checks/unsafe-config")
        (reason ++ codes "; check skipped")

  unfoldable pub unsafe_config_finding : Text → List Finding
  unfolding before_colon from_records
  unsafe_config_finding reason =
      from_records tree capability operation warnings (unsafe_report reason ∷ [])

  abbrev pub failure : Text → ℤ → Text → Text
  failure tool exit_code detail =
      tool
      ++ (codes " exited "
          ++ (show_code exit_code
              ++ (codes " unexpectedly: "
                  ++ or_no_output (rstrip tree.is_space (lstrip tree.is_space detail)))))

  abbrev failed_report : Text → ℤ → Text → Record
  failed_report tool exit_code detail =
      report whole_repo_path (codes "rw-checks/check-failed") (failure tool exit_code detail)

  unfoldable pub check_failed_finding : Text → ℤ → Text → List Finding
  unfolding from_records
  check_failed_finding tool exit_code detail =
      from_records tree capability operation warnings (failed_report tool exit_code detail ∷ [])

  -- check_exit: `expect` is the module's EXPECT_EXIT, or (0,).
  unfoldable pub check_exit : Text → Process → List ℤ → Option (List Finding)
  unfolding check_failed_finding
  check_exit tool proc expect =
      if any (code_eq proc.returncode) expect
      then none
      else some (check_failed_finding tool proc.returncode proc.stderr)

  -- One finding that says this.
  abbrev pub Says : Text → List Finding → Type 0
  Says message found = (f : Finding) × (found ≡ f ∷ []) × (f.message ≡ message)

  from_records-Says :
      (rec : Record) (at : Text)
      → normalized tree rec.path ≡ some at
      → Says rec.message (from_records tree capability operation warnings (rec ∷ []))
  unfolding from_records
  from_records-Says rec at h =
      (finding_of tree capability operation warnings at rec, rw h refl, refl)

  module _ (at_root : Text) (survives : normalized tree whole_repo_path ≡ some at_root) where
    kept_path-survives :
        (path : Option Text) → (at : Text) × (normalized tree (kept_path tree path) ≡ some at)
    kept_path-survives none = (at_root, survives)
    kept_path-survives (some []) = (at_root, survives)
    kept_path-survives (some (c ∷ path)) = elim (Option-cases (normalized tree (c ∷ path))) [
      | inl dropped ↦ (at_root, rw (kept_path, dropped) survives)
      | inr (at, kept) ↦ (at, rw (kept_path, kept) kept)
    ]

    -- Whatever the reason says, a refused check leaves exactly one finding, with the reason in its message.
    pub unsafe_config_finding-Says :
        (reason : Text) → Says (reason ++ codes "; check skipped") (unsafe_config_finding reason)
    unfolding unsafe_config_finding
    unsafe_config_finding-Says reason =
        let (at, kept) = kept_path-survives (before_colon reason) in
        from_records-Says (unsafe_report reason) at kept
