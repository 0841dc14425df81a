-- ===== src/Tests/Checks.antt =====
-- Check runs and findings at concrete inputs.
use rw_checks_codecollection.Prelude.{
  ℕ, ◌≡◌, refl, Bool, false, List, [], ◌∷◌, ◌++◌, Option, none, some, map, if◌then◌else◌, Text,
  codes, text_eq, mem,
}
use rw_checks_codecollection.Faults.{ok}
use rw_checks_codecollection.Paths.{split_slash, path_name}
use rw_checks_codecollection.Findings.{
  warning, Finding, FindingsResult, cap, Record, Worktree, normalize_context,
}
use rw_checks_codecollection.Findings.Uri.{
  normalize_uri, normpath, path_parts, norm_parts, push_part, relative_parts, climbs, located,
}
use rw_checks_codecollection.Sarif.{check_size, SarifRun, flatten, yields, finding_from, parse}
use rw_checks_codecollection.Sarif.Bounds.{cap-parse}
use rw_checks_codecollection.Checks.Batches.{batches, batch_loop, concat, concat-batches}
use rw_checks_codecollection.Checks.Runner.{
  Check, is_allowed, Gathered, run_chunks, run_invocations, run_check, names_file, ends_with,
  realign,
}
use rw_checks_codecollection.Checks.Runner.Scope.{all_files, Covers, run_check-Covers}

abbrev two_files : List Text
two_files = codes "a.py" ∷ codes "b/c.py" ∷ []

concat-batches_example : concat (batches two_files) ≡ two_files
concat-batches_example = concat-batches two_files

abbrev finding_on : Text → Finding
finding_on path = record {
  capability = codes "rw-checks";
  operation = codes "ruff";
  rule = codes "F401";
  path = path;
  line = 1;
  column = 0;
  end_line = 0;
  end_column = 0;
  severity = warning;
  message = [];
  context = [];
}

-- A tool that also reports on a file that it was not asked about.
abbrev chatty : Check
chatty = record {
  applicable = λ changed. record {
    invocations = record { files = two_files; config = none; cwd = [] } ∷ [];
    skipped = none;
    refusals = [];
  };
  check = λ inv. ok (finding_on (codes "a.py") ∷ finding_on (codes "z.py") ∷ []);
}

abbrev kept : FindingsResult
kept = record {
  findings = finding_on (codes "a.py") ∷ [];
  truncated = false;
  skipped = none;
  files_checked = 2;
}

chatty-kept : run_check chatty (some two_files) ≡ ok kept
unfolding run_check run_invocations run_chunks batches batch_loop is_allowed mem text_eq cap
chatty-kept = refl

run_check-Covers_example :
    let a = chatty.applicable (some two_files) in
    (g : Gathered) × Covers (all_files a.invocations) g
    × (kept ≡ cap (a.refusals ++ g.findings) a.skipped g.checked)
run_check-Covers_example = run_check-Covers chatty (some two_files) kept chatty-kept

-- The path that the finding ends up on.
c-realigned : realign two_files (finding_on (codes "c.py")) ≡ finding_on (codes "b/c.py")
unfolding realign is_allowed mem text_eq names_file ends_with path_name split_slash
c-realigned = refl

abbrev plain_url : Text → Option (Text × Text)
plain_url uri = some ([], uri)

abbrev same_text : Text → Text
same_text t = t

abbrev small_tree : Worktree
small_tree = record {
  urlparse = plain_url;
  unquote = same_text;
  abs_root = codes "/w";
  safe_path = λ p. some p;
  read_text = λ p. some (codes "x");
  is_space = λ c. false;
  lower = same_text;
}

abbrev two_records : List Record
two_records =
    record {
      path = codes "../x";
      rule = [];
      line = 0;
      column = 0;
      end_line = 0;
      end_column = 0;
      severity = [];
      message = [];
      snippet = [];
    }
    ∷ record {
      path = codes "/w/a.py";
      rule = [];
      line = 1;
      column = 0;
      end_line = 0;
      end_column = 0;
      severity = [];
      message = [];
      snippet = [];
    }
    ∷ []

outside-dropped : normalize_uri plain_url same_text (codes "/w") (codes "b/../../a.py") ≡ none
unfolding normalize_uri path_parts norm_parts push_part relative_parts climbs split_slash text_eq
    normpath
outside-dropped = refl

dotted-located :
    located plain_url same_text
      (codes "/w")
      (codes ".//etc/hosts")
      (plain_url (codes ".//etc/hosts"))
    ≡ some (codes ".//etc/hosts")
unfolding text_eq
dotted-located = refl

abbrev one_run : SarifRun Bool
one_run = record {
  bases = [];
  rules = [];
  results = record { rule_id = codes "R1"; level = []; message = []; location = none } ∷ [];
}

abbrev parsed : List Finding
parsed = record (finding_on []) { rule = codes "R1"; line = 0 } ∷ []

one_run-parsed :
    parse false
      (λ r l p. warning)
      (λ a b. none)
      small_tree
      (λ t. ok (one_run ∷ []))
      (codes "rw-checks")
      (codes "ruff")
      (codes "{}")
    ≡ ok parsed
unfolding parse check_size flatten yields normalize_context
one_run-parsed = refl

cap-parse_example :
    cap parsed none 1
    ≡ cap
        (map
          (finding_from false
            (λ r l p. warning)
            (λ a b. none)
            small_tree
            (codes "rw-checks")
            (codes "ruff"))
          (flatten false (λ r l p. warning) (λ a b. none) small_tree (one_run ∷ [])))
        none
        1
cap-parse_example =
    cap-parse false (λ r l p. warning) (λ a b. none) small_tree (λ t. ok (one_run ∷ []))
      (codes "rw-checks") (codes "ruff") (codes "{}") (one_run ∷ []) parsed none 1 refl
      one_run-parsed

abbrev two_texts : Text → Option Text
two_texts path = if text_eq path (codes "a") then some (codes "one\ntwo") else none

abbrev reads : List (Text × ℕ)
reads = (codes "a", 2) ∷ (codes "b", 1) ∷ (codes "a", 1) ∷ []
